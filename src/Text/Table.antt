-- ===== src/Text/Table.antt =====
-- `HashMap<String, _>`: an association list whose keys are texts.
use mathlib.Core.Path.{subst}
use rsh.Prelude.{
  ◌≡◌, refl, sym, ap, Bool, true, false, Option, none, some, List, [], ◌∷◌, if◌then◌else◌,
  Bool-cases, inl, inr,
}
use rsh.Text.{Text, text_eq, text_eq_iff}

abbrev pub Table {ℓ} : Type ℓ → Type ℓ
Table V = List (Text × V)

pub text_eq_refl : (text : Text) → text_eq text text ≡ true
text_eq_refl text = (text_eq_iff text text).1 refl

module _ {ℓ} {V : Type ℓ} where
  unfoldable pub get : Text → Table V → Option V
  get key [] = none
  get key ((k, v) ∷ rest) = let later = get key rest in if text_eq k key then some v else later

  unfoldable pub remove : Text → Table V → Table V
  remove key [] = []
  remove key ((k, v) ∷ rest) =
      let others = remove key rest in if text_eq k key then others else (k, v) ∷ others

  unfoldable pub insert : Text → V → Table V → Table V
  unfolding remove
  insert key v table = (key, v) ∷ remove key table

  unfoldable pub remove_all : List Text → Table V → Table V
  unfolding remove
  remove_all [] table = table
  remove_all (key ∷ keys) table = remove_all keys (remove key table)

  -- `retain` on the values
  unfoldable pub retain : (V → Bool) → Table V → Table V
  retain keep [] = []
  retain keep ((k, v) ∷ rest) =
      let others = retain keep rest in if keep v then (k, v) ∷ others else others

  -- A predicate on every entry.
  abbrev pub Each {κ} : (Text → V → Type κ) → Table V → Type κ
  Each P [] = Unit
  Each P ((k, v) ∷ rest) = P k v × Each P rest

  pub get-insert : (key : Text) (v : V) (table : Table V) → get key (insert key v table) ≡ some v
  unfolding get insert
  get-insert key v table = rw (text_eq_refl key) refl

  pub get-remove : (key : Text) (table : Table V) → get key (remove key table) ≡ none
  unfolding get remove
  get-remove key [] = refl
  get-remove key ((k, v) ∷ rest) = elim (Bool-cases (text_eq k key)) [
    | inl same ↦ rw same (get-remove key rest)
    | inr other ↦ rw (other, other) (get-remove key rest)
  ]

  pub get-remove_ne :
      (key other : Text) (table : Table V)
      → text_eq other key ≡ false
      → get key (remove other table) ≡ get key table
  unfolding get remove
  get-remove_ne key other [] h = refl
  get-remove_ne key other ((k, v) ∷ rest) h = elim (Bool-cases (text_eq k other)) [
    | inl same ↦
        let k_key : text_eq k key ≡ false =
          subst (λ (t : Text). text_eq t key ≡ false) (sym ((text_eq_iff k other).0 same)) h in
        rw (same, k_key) (get-remove_ne key other rest h)
    | inr different ↦ rw (different, get-remove_ne key other rest h)
  ]

  pub get-insert_ne :
      (key other : Text) (v : V) (table : Table V)
      → text_eq other key ≡ false
      → get key (insert other v table) ≡ get key table
  unfolding get insert
  get-insert_ne key other v table h = rw h (get-remove_ne key other table h)

  pub remove_absent :
      (key : Text) (table : Table V) → get key table ≡ none → remove key table ≡ table
  unfolding get remove
  remove_absent key [] h = refl
  remove_absent key ((k, v) ∷ rest) h = elim (Bool-cases (text_eq k key)) [
    | inl same ↦ let never : some v ≡ none = rw same at h in cc
    | inr other ↦ rw other (ap (◌∷◌ (k, v)) (remove_absent key rest (rw other at h)))
  ]

  module _ {κ} (P : Text → V → Type κ) where
    pub Each-get :
        (key : Text) (table : Table V) {v : V} → Each P table → get key table ≡ some v → P key v
    unfolding get
    Each-get key [] e h = cc
    Each-get key ((k, w) ∷ rest) {v} e h = elim (Bool-cases (text_eq k key)) [
      | inl same ↦
          let here : some w ≡ some v = rw same at h in
          let value : w ≡ v = cc in
          subst (λ (x : V). P key x) value
            (subst (λ (t : Text). P t w) ((text_eq_iff k key).0 same) e.0)
      | inr other ↦ Each-get key rest e.1 (rw other at h)
    ]

    pub Each-remove : (key : Text) (table : Table V) → Each P table → Each P (remove key table)
    unfolding remove
    Each-remove key [] e = e
    Each-remove key ((k, v) ∷ rest) e = elim (Bool-cases (text_eq k key)) [
      | inl same ↦ rw same (Each-remove key rest e.1)
      | inr other ↦ rw other (e.0, Each-remove key rest e.1)
    ]

    pub Each-insert :
        (key : Text) (v : V) (table : Table V)
        → P key v
        → Each P table
        → Each P (insert key v table)
    unfolding insert
    Each-insert key v table h e = (h, Each-remove key table e)

    pub Each-remove_all :
        (keys : List Text) (table : Table V) → Each P table → Each P (remove_all keys table)
    unfolding remove_all
    Each-remove_all [] table e = e
    Each-remove_all (key ∷ keys) table e =
        Each-remove_all keys (remove key table) (Each-remove key table e)

    pub Each-retain :
        (keep : V → Bool) (table : Table V) → Each P table → Each P (retain keep table)
    unfolding retain
    Each-retain keep [] e = e
    Each-retain keep ((k, v) ∷ rest) e = elim (Bool-cases (keep v)) [
      | inl kept ↦ rw kept (e.0, Each-retain keep rest e.1)
      | inr dropped ↦ rw dropped (Each-retain keep rest e.1)
    ]
