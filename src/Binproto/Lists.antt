-- ===== src/Binproto/Lists.antt =====
-- Lists of strings, and optional strings, at an offset where their encodings stand.
use rsh.Prelude.{
  ℕ, zero, suc, ◌+◌, ◌^◌, ◌<◌, ◌≡◌, refl, sym, ap, ◌∙◌, List, [], ◌∷◌, ◌++◌, arith, ltb, Option,
  none, some, le→ltb, lt→ltb, lt→leb, length, length-drop, false, drop, append_assoc, append-nil,
  length_at, drop_behind,
}
use rsh.Prelude.Bytes.{Bytes}
use rsh.Error.{ok}
use rsh.Utf8.{IsUtf8}
use rsh.Binproto.Messages.{encode_strs, decode_strs, counted_strs, encode_optional, decode_optional}
use rsh.Binproto.Fields.{str_field, encode_str-field, byte_at_here, decode_str_at}

-- A `str` that `encode_str` can carry: its length fits the two bytes.
abbrev pub Fits : Bytes → Type 0
Fits s = (length s < 2 ^ 16) × IsUtf8 s

abbrev pub AllFit : List Bytes → Type 0
AllFit [] = Unit
AllFit (s ∷ ss) = Fits s × AllFit ss

abbrev pub OptionFits : Option Bytes → Type 0
OptionFits none = Unit
OptionFits (some s) = Fits s

abbrev pub strs_field : List Bytes → Bytes
strs_field [] = []
strs_field (s ∷ ss) = str_field s ++ strs_field ss

abbrev pub optional_field : Option Bytes → Bytes
optional_field none = 0 ∷ []
optional_field (some s) = 1 ∷ str_field s

pub encode_strs-field : (ss : List Bytes) (buf : Bytes) → encode_strs buf ss ≡ buf ++ strs_field ss
unfolding encode_strs
encode_strs-field [] buf = sym (append-nil buf)
encode_strs-field (s ∷ ss) buf =
    encode_strs-field ss _ ∙ rw encode_str-field (append_assoc buf (str_field s) (strs_field ss))

pub encode_optional-field :
    (buf : Bytes) (o : Option Bytes) → encode_optional buf o ≡ buf ++ optional_field o
unfolding encode_optional
encode_optional-field buf none = refl
encode_optional-field buf (some s) = encode_str-field _ s ∙ append_assoc buf (1 ∷ []) (str_field s)

pub decode_strs_at :
    (ss : List Bytes) (n : ℕ) (bytes rest : Bytes) (off : ℕ)
    → n ≡ length ss
    → AllFit ss
    → drop off bytes ≡ strs_field ss ++ rest
    → (off' : ℕ) × (decode_strs n bytes off ≡ ok (ss, off')) × (drop off' bytes ≡ rest)
unfolding decode_strs
decode_strs_at [] zero bytes rest off e fits h = (off, refl, h)
decode_strs_at [] (suc n) bytes rest off e fits h = absurd (omega arith)
decode_strs_at (s ∷ ss) zero bytes rest off e fits h = absurd (omega arith)
decode_strs_at (s ∷ ss) (suc n) bytes rest off e fits h =
    let (off1, e1, h1) =
      decode_str_at bytes s (strs_field ss ++ rest) off fits.0.0 fits.0.1
        (h ∙ append_assoc (str_field s) (strs_field ss) rest) in
    let (off2, e2, h2) = decode_strs_at ss n bytes rest off1 (omega arith) fits.1 h1 in
    (off2, rw (e1, e2), h2)

-- Fewer bytes than the offset say that nothing stands there.
pub behind_end : (bytes rest : Bytes) (b off : ℕ) → drop off bytes ≡ b ∷ rest → off < length bytes
behind_end bytes rest b off h = omega (arith, length_at bytes (b ∷ []) rest off h (omega arith))

pub counted_strs_at :
    (ss : List Bytes) (n : ℕ) (bytes rest : Bytes) (off : ℕ)
    → n ≡ length ss
    → AllFit ss
    → drop off bytes ≡ n ∷ (strs_field ss ++ rest)
    → (off' : ℕ) × (counted_strs bytes off ≡ ok (ss, off')) × (drop off' bytes ≡ rest)
unfolding counted_strs
counted_strs_at ss n bytes rest off e fits h =
    let (off', e', h') =
      decode_strs_at ss n bytes rest (off + 1) e fits
        (drop_behind bytes (n ∷ []) (strs_field ss ++ rest) off (off + 1) h refl) in
    (
      off',
      rw (lt→leb (length bytes) off (behind_end bytes _ n off h), byte_at_here bytes _ n off h, e'),
      h',
    )

pub decode_optional_at :
    (o : Option Bytes) (bytes rest : Bytes) (off : ℕ)
    → OptionFits o
    → drop off bytes ≡ optional_field o ++ rest
    → (off' : ℕ) × (decode_optional bytes off ≡ ok (o, off')) × (drop off' bytes ≡ rest)
unfolding decode_optional
decode_optional_at none bytes rest off fits h =
    let room = lt→ltb off (length bytes) (behind_end bytes rest 0 off h) in
    (
      off + 1,
      rw (room, byte_at_here bytes rest 0 off h),
      drop_behind bytes (0 ∷ []) rest off (off + 1) h refl,
    )
decode_optional_at (some s) bytes rest off fits h =
    let room = lt→ltb off (length bytes) (behind_end bytes (str_field s ++ rest) 1 off h) in
    let (off', e, h') =
      decode_str_at bytes s rest (off + 1) fits.0 fits.1
        (drop_behind bytes (1 ∷ []) (str_field s ++ rest) off (off + 1) h refl) in
    (off', rw (room, byte_at_here bytes (str_field s ++ rest) 1 off h, e), h')

-- A message that ends before an optional field has none.
pub decode_optional_end :
    (bytes : Bytes) (off : ℕ) → drop off bytes ≡ [] → decode_optional bytes off ≡ ok (none, off)
unfolding decode_optional
decode_optional_end bytes off h =
    let over : ltb off (length bytes) ≡ false =
      le→ltb off (length bytes) (omega (arith, length-drop off bytes, ap length h)) in
    rw over
