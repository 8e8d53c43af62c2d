-- ===== src/Config/Fields.antt =====
-- What each line that `to_string` writes of a value sets.
use rsh.Prelude.{
  ℕ, ◌≡◌, refl, ap, ◌∙◌, Bool, true, false, Option, none, some, List, [], ◌∷◌, ◌++◌, ltb, replicate,
  ◌&&◌,
}
use rsh.Text.{Text, chars}
use rsh.Text.Split.{arm, starts_with}
use rsh.Config.{ascii_lower}
use rsh.Config.Parse.{Parsing, Key, keys, set_key, parse_lines, parse_server_list}
use rsh.Config.Print.{opt_line, line_if, list_line, join, bool_line, bool_text}
use rsh.Config.Values.{IsClean, parse_line-label, parse_lines-append}
use rsh.Config.Labels.{label, is_plain, AllServers, parse_server_list-join}

-- A predicate on the value, if there is one.
abbrev pub IfSome {ℓ κ} : {A : Type ℓ} → (A → Type κ) → Option A → Type κ
IfSome P none = Unit
IfSome P (some a) = P a

pub if_some {ℓ κ} : {A : Type ℓ} (P : A → Type κ) (o : Option A) → ((a : A) → P a) → IfSome P o
if_some P none h = tt
if_some P (some a) h = h a

pub IfSome-map {ℓ κ} :
    {A : Type ℓ} (P Q : A → Type κ) (o : Option A) → ((a : A) → P a → Q a) → IfSome P o → IfSome Q o
IfSome-map P Q none f h = tt
IfSome-map P Q (some a) f h = f a h

-- Server names that are read back from their list.
abbrev pub IsList : List Text → Type 0
IsList [] = Unit
IsList (s ∷ servers) = AllServers (s ∷ servers) × IsClean (join (s ∷ servers))

-- A text of ASCII characters.
abbrev pub is_ascii : Text → Bool
is_ascii [] = true
is_ascii (c ∷ cs) = ltb c 128 && is_ascii cs

-- `to_lowercase` on ASCII texts.
abbrev pub Lowers : (Text → Text) → Type 0
Lowers to_lowercase = (t : Text) → is_ascii t ≡ true → to_lowercase t ≡ ascii_lower t

abbrev pub IsPath : Text → Type 0
IsPath value = starts_with value (chars "~/") ≡ false

pub bool_text-IsClean : (b : Bool) → IsClean (bool_text b)
bool_text-IsClean true = record {
  trimmed = refl;
  unquoted = refl;
  front = chars "tru";
  last = b'e';
  is_text = refl;
  last_kept = refl;
  one_line = (refl, (refl, (refl, (refl, tt))));
}
bool_text-IsClean false = record {
  trimmed = refl;
  unquoted = refl;
  front = chars "fals";
  last = b'e';
  is_text = refl;
  last_kept = refl;
  one_line = (refl, (refl, (refl, (refl, (refl, tt)))));
}

module _ (to_lowercase : Text → Text) (home_join : Text → Option Text)
    (lowers : Lowers to_lowercase) where
  abbrev pub L : List Text → Parsing → Parsing
  L = parse_lines to_lowercase home_join

  abbrev pub set : Key → Text → Parsing → Parsing
  set = set_key to_lowercase home_join

  -- The lines of two parts, one after the other.
  pub both_parts :
      (xs ys : List Text) (s s' s'' : Parsing) → L xs s ≡ s' → L ys s' ≡ s'' → L (xs ++ ys) s ≡ s''
  both_parts xs ys s s' s'' e f =
      parse_lines-append to_lowercase home_join xs ys s ∙ ap (L ys) e ∙ f

  -- Lines that lead from one state to another.
  pub record Part (s s' : Parsing) : Type 0 where
    pub lines : List Text
    pub reads : L lines s ≡ s'

  abbrev pub both : {s s' s'' : Parsing} → Part s s' → Part s' s'' → Part s s''
  both {s} {s'} {s''} p q = record {
    lines = p.lines ++ q.lines;
    reads = both_parts p.lines q.lines s s' s'' p.reads q.reads;
  }

  -- The line of a key and a clean value.
  pub line_sets :
      (indent : ℕ) (key : Text) (k : Key) (value : Text) (s : Parsing)
      → is_plain key ≡ true
      → is_ascii key ≡ true
      → arm keys (ascii_lower key) ≡ some k
      → IsClean value
      → L (((replicate indent 0x20 ++ (key ++ (0x20 ∷ []))) ++ value) ∷ []) s ≡ set k value s
  unfolding parse_lines
  line_sets indent key k value s plain ascii known clean =
      parse_line-label to_lowercase home_join _ key value k s (label indent key plain)
        (ap (arm keys) (lowers key ascii) ∙ known) clean

  module _ (indent : ℕ) (key : Text) (k : Key) (plain : is_plain key ≡ true)
      (ascii : is_ascii key ≡ true) (known : arm keys (ascii_lower key) ≡ some k) where
    abbrev text : Text
    text = replicate indent 0x20 ++ (key ++ (0x20 ∷ []))

    pub opt_line_sets :
        (o : Option Text) (state : Option Text → Parsing)
        → IfSome IsClean o
        → IfSome (λ v. set k v (state none) ≡ state (some v)) o
        → L (opt_line text o) (state none) ≡ state o
    opt_line_sets none state clean h = unfold parse_lines in refl
    opt_line_sets (some v) state clean h =
        line_sets indent key k v (state none) plain ascii known clean ∙ h

    pub list_line_sets :
        (servers : List Text) (state : List Text → Parsing)
        → IsList servers
        → ((v : Text) → set k v (state []) ≡ state (parse_server_list v))
        → L (list_line text servers) (state []) ≡ state servers
    list_line_sets [] state all h = unfold parse_lines in refl
    list_line_sets (s ∷ servers) state (all, clean) h =
        line_sets indent key k (join (s ∷ servers)) (state []) plain ascii known clean
        ∙ h (join (s ∷ servers))
        ∙ ap state (parse_server_list-join (s ∷ servers) all)

    -- A line that is written under a condition, and a state that holds without it.
    pub line_if_sets :
        (b : Bool) (value : Text) (s s' : Parsing)
        → IsClean value
        → (b ≡ true → set k value s ≡ s')
        → (b ≡ false → s ≡ s')
        → L (line_if b (text ++ value)) s ≡ s'
    line_if_sets true value s s' clean there gone =
        line_sets indent key k value s plain ascii known clean ∙ there refl
    line_if_sets false value s s' clean there gone = unfold parse_lines in gone refl

    pub bool_line_sets :
        (o : Option Bool) (state : Option Bool → Parsing)
        → ((b : Bool) → set k (bool_text b) (state none) ≡ state (some b))
        → L (bool_line text o) (state none) ≡ state o
    bool_line_sets none state h = unfold parse_lines in refl
    bool_line_sets (some b) state h =
        line_sets indent key k (bool_text b) (state none) plain ascii known (bool_text-IsClean b)
        ∙ h b

    abbrev pub opt_part :
        (o : Option Text) (state : Option Text → Parsing)
        → IfSome IsClean o
        → ((v : Text) → set k v (state none) ≡ state (some v))
        → Part (state none) (state o)
    opt_part o state clean h = record {
      lines = opt_line text o;
      reads = opt_line_sets o state clean (if_some _ o h);
    }

    abbrev pub path_part :
        (o : Option Text) (state : Option Text → Parsing)
        → IfSome IsClean o
        → IfSome IsPath o
        → ((v : Text) → IsPath v → set k v (state none) ≡ state (some v))
        → Part (state none) (state o)
    path_part o state clean path h = record {
      lines = opt_line text o;
      reads = opt_line_sets o state clean (IfSome-map IsPath _ o h path);
    }

    abbrev pub list_part :
        (servers : List Text) (state : List Text → Parsing)
        → IsList servers
        → ((v : Text) → set k v (state []) ≡ state (parse_server_list v))
        → Part (state []) (state servers)
    list_part servers state all h = record {
      lines = list_line text servers;
      reads = list_line_sets servers state all h;
    }
