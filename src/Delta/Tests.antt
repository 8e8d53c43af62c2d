-- ===== src/Delta/Tests.antt =====
-- delta.rs with concrete digests: the strong checksum is the block itself, and the text form
-- writes each byte in unary.
use Prim.Native.Char.{code}
use Prim.Native.String.{String}
use rsh.Prelude.{
  ℕ, zero, suc, ◌+◌, ◌/◌, ◌≡◌, refl, sym, ap, ◌∙◌, true, false, List, [], ◌∷◌, some, arith, ◌==◌,
}
use rsh.Prelude.Bytes.{Bytes}
use rsh.Delta.{Digests, DeltaOp, compute_signatures, compute_delta, apply_delta, delta_stats}
use rsh.Delta.Reconstruct.{NoCollision, apply_delta-compute_delta}
use rsh.Delta.Identical.{delta_stats_identical}

units : ℕ → String → String
units zero s = s
units (suc n) s = String.◌∷◌ "1" (units n s)

unary : Bytes → String
unfolding units
unary [] = ""
unary (b ∷ bs) = units b (String.◌∷◌ "0" (unary bs))

read_unary : ℕ → String → Bytes
read_unary n String.[] = []
read_unary n (String.◌∷◌ c s) = elim (code c == b'1') [
  | true ↦ read_unary (suc n) s
  | false ↦ n ∷ read_unary 0 s
]

read_unary-units : (b n m : ℕ) (s : String) → m ≡ n + b → read_unary n (units b s) ≡ read_unary m s
unfolding read_unary units
read_unary-units zero n m s e = ap (λ (k : ℕ). read_unary k s) (omega arith)
read_unary-units (suc b) n m s e = read_unary-units b (suc n) m s (omega arith)

read_unary-zero : (n : ℕ) (s : String) → read_unary n (String.◌∷◌ "0" s) ≡ n ∷ read_unary 0 s
unfolding read_unary
read_unary-zero n s = refl

read_unary-unary : (bs : Bytes) → read_unary 0 (unary bs) ≡ bs
unfolding unary
read_unary-unary [] = unfold read_unary in refl
read_unary-unary (b ∷ bs) =
    read_unary-units b 0 b _ (omega arith)
    ∙ read_unary-zero b (unary bs)
    ∙ ap (◌∷◌ b) (read_unary-unary bs)

plain_law : (bs : Bytes) → some (read_unary 0 (unary bs)) ≡ some bs
plain_law bs = ap some (read_unary-unary bs)

abbrev sum : Bytes → ℕ
sum [] = 0
sum (b ∷ bs) = b + sum bs

abbrev plain : Digests
plain = record {
  adler32 = λ bs. some (sum bs);
  md5 = λ bs. bs;
  encode = unary;
  decode = λ s. some (read_unary 0 s);
  decode-encode = plain_law;
}

plain-NoCollision : (old_data new_data : Bytes) → NoCollision plain old_data new_data
plain-NoCollision old_data new_data i k e =
    sym (read_unary-unary _) ∙ ap (read_unary 0) e ∙ read_unary-unary _

abbrev old_file : Bytes
old_file = 1 ∷ 2 ∷ 3 ∷ []

abbrev new_file : Bytes
new_file = 1 ∷ 2 ∷ 3 ∷ 0 ∷ []

identical_delta :
    delta_stats plain (compute_delta plain old_file (compute_signatures plain old_file)) ≡ (1, 0)
unfolding delta_stats compute_delta compute_signatures unary read_unary
identical_delta = refl

changed_delta :
    delta_stats plain (compute_delta plain new_file (compute_signatures plain old_file)) ≡ (0, 4)
unfolding delta_stats compute_delta compute_signatures unary read_unary
changed_delta = refl

apply_delta-compute_delta_example :
    apply_delta plain old_file (compute_delta plain new_file (compute_signatures plain old_file))
    ≡ new_file
apply_delta-compute_delta_example =
    apply_delta-compute_delta plain old_file new_file (omega arith)
      (plain-NoCollision old_file new_file)

delta_stats_identical_example :
    delta_stats plain (compute_delta plain old_file (compute_signatures plain old_file))
    ≡ ((3 + 4095) / 4096, 0)
delta_stats_identical_example = delta_stats_identical plain old_file (omega arith)

abbrev hostile_delta : List DeltaOp
hostile_delta =
    record { op_type = "match"; index = 4503599627370496; text = "" }
    ∷ record { op_type = "data"; index = 0; text = "10" }
    ∷ record { op_type = "junk"; index = 0; text = "" }
    ∷ []
