-- ===== src/Sync/Newer.antt =====
-- What the plan of a directory sync says about each path.
use mathlib.Core.Path.{subst}
use rsh.Prelude.{
  Option-cases, ◌≡◌, refl, ap, ◌∙◌, Bool, true, false, ◌||◌, ◌&&◌, not, sym, Option, none, some,
  List, [], ◌∷◌, ◌++◌, arith, Bool-cases, inl, inr,
}
use rsh.Prelude.Bytes.{Bytes}
use rsh.Text.{text_eq, text_eq_iff}
use rsh.Text.Number.{ℤ, pos, negsuc}
use rsh.Sync.{
  Entry, Decision, unchanged, pull, push, decide, int_ltb, int_eq, Tree, find, contains, Plan, add,
  empty, decide_for, plan_remote, only_local, plan_sync,
}

-- No path stands twice, as in a hash map.
abbrev pub Distinct : Tree → Type 0
Distinct [] = Unit
Distinct ((rel, e) ∷ rest) = (find rel rest ≡ none) × Distinct rest

abbrev pub is_pull : Decision → Bool
is_pull unchanged = false
is_pull pull = true
is_pull push = false

abbrev pub is_push : Decision → Bool
is_push unchanged = false
is_push pull = false
is_push push = true

abbrev known : Entry → Bool
known e = int_ltb (pos 0) e.mtime

-- The local file is newer, as far as the times are known.
abbrev pub local_newer : Entry → Entry → Bool
local_newer remote local = known remote && known local && int_ltb remote.mtime local.mtime

-- The sizes are equal, and the times do not tell the files apart.
abbrev pub same : Entry → Entry → Bool
same remote local =
    int_eq remote.size local.size
    && (int_eq remote.mtime (pos 0)
        || int_eq local.mtime (pos 0)
        || int_eq remote.mtime local.mtime)

-- What a sync should do with a path, from what stands on the two sides.
abbrev pub pulls : Option Entry → Option Entry → Bool
pulls none l = false
pulls (some r) none = true
pulls (some r) (some l) = not (same r l) && not (local_newer r l)

abbrev pub pushes : Option Entry → Option Entry → Bool
pushes none none = false
pushes none (some l) = true
pushes (some r) none = false
pushes (some r) (some l) = local_newer r l

is_pull-decide :
    (s s' m m' : ℤ)
    → (let r : Entry = record { size = s; mtime = m } in
        let l : Entry = record { size = s'; mtime = m' } in
        is_pull (decide r l) ≡ (not (same r l) && not (local_newer r l)))
unfolding decide
is_pull-decide s s' (pos m) (pos m') = ground (arith, int_eq s s')
is_pull-decide s s' (pos m) (negsuc m') = ground (arith, int_eq s s')
is_pull-decide s s' (negsuc m) (pos m') = ground (arith, int_eq s s')
is_pull-decide s s' (negsuc m) (negsuc m') = ground (arith, int_eq s s')

is_push-decide :
    (s s' m m' : ℤ)
    → (let r : Entry = record { size = s; mtime = m } in
        let l : Entry = record { size = s'; mtime = m' } in is_push (decide r l) ≡ local_newer r l)
unfolding decide
is_push-decide s s' (pos m) (pos m') = ground (arith, int_eq s s')
is_push-decide s s' (pos m) (negsuc m') = ground (arith, int_eq s s')
is_push-decide s s' (negsuc m) (pos m') = ground (arith, int_eq s s')
is_push-decide s s' (negsuc m) (negsuc m') = ground (arith, int_eq s s')

contains-append :
    (xs ys : List Bytes) (x : Bytes) → contains (xs ++ ys) x ≡ (contains xs x || contains ys x)
unfolding contains
contains-append [] ys x = refl
contains-append (y ∷ xs) ys x = ground (arith, contains-append xs ys x)

abbrev only : Option Entry → Option Entry → Bool
only none r = false
only (some l) none = true
only (some l) (some r) = false

contains-to_pull-add :
    (x : Bytes) (d : Decision) (plan : Plan) (rel : Bytes)
    → contains (add x d plan).to_pull rel
      ≡ (text_eq x rel && is_pull d || contains plan.to_pull rel)
unfolding contains
contains-to_pull-add x unchanged plan rel = ground arith
contains-to_pull-add x pull plan rel = ground arith
contains-to_pull-add x push plan rel = ground arith

contains-to_push-add :
    (x : Bytes) (d : Decision) (plan : Plan) (rel : Bytes)
    → contains (add x d plan).to_push rel
      ≡ (text_eq x rel && is_push d || contains plan.to_push rel)
unfolding contains
contains-to_push-add x unchanged plan rel = ground arith
contains-to_push-add x pull plan rel = ground arith
contains-to_push-add x push plan rel = ground arith

abbrev chosen : (Decision → Bool) → Option Entry → Option Entry → Bool
chosen takes none l = false
chosen takes (some r) l = takes (decide_for r l)

-- One lemma for the two lists of the loop over the remote files: `list` is one of them, and `takes`
-- the decisions that fill it.
module _ (list : Plan → List Bytes) (takes : Decision → Bool)
    (list-add : (x : Bytes) (d : Decision) (plan : Plan) (rel : Bytes)
      → contains (list (add x d plan)) rel ≡ (text_eq x rel && takes d || contains (list plan) rel))
    (list_empty : (rel : Bytes) → contains (list empty) rel ≡ false) where
  list-plan_remote :
      (local remote : Tree) (rel : Bytes)
      → Distinct remote
      → contains (list (plan_remote local remote)) rel
        ≡ chosen takes (find rel remote) (find rel local)
  unfolding plan_remote find
  list-plan_remote local [] rel distinct = list_empty rel
  list-plan_remote local ((key, r) ∷ rest) rel distinct =
      let ih = list-plan_remote local rest rel distinct.1 in
      list-add key (decide_for r (find key local)) (plan_remote local rest) rel
      ∙ elim (Bool-cases (text_eq key rel)) [
        | inl same ↦
            let e = (text_eq_iff key rel).0 same in
            let gone : find rel rest ≡ none = rw (sym e) distinct.0 in
            let rest_empty : contains (list (plan_remote local rest)) rel ≡ false =
              ih ∙ ap (λ (o : Option Entry). chosen takes o (find rel local)) gone in
            rw (same, rest_empty, e) (ground arith)
        | inr other ↦ rw other ih
      ]

only-some : (l : Option Entry) (r : Entry) → only l (some r) ≡ false
only-some none r = refl
only-some (some l) r = refl

contains-only_local :
    (remote local : Tree) (rel : Bytes)
    → contains (only_local remote local) rel ≡ only (find rel local) (find rel remote)
unfolding only_local find contains
contains-only_local remote [] rel = refl
contains-only_local remote ((key, e) ∷ rest) rel =
    let ih = contains-only_local remote rest rel in
    elim (Bool-cases (text_eq key rel)) [
      | inl same ↦ elim (Option-cases (find key remote)) [
        | inl gone ↦
            let away : find rel remote ≡ none =
              subst (λ (k : Bytes). find k remote ≡ none) ((text_eq_iff key rel).0 same) gone in
            rw (only_local, gone, same, away) refl
        | inr (r, found) ↦
            let there : find rel remote ≡ some r =
              subst (λ (k : Bytes). find k remote ≡ some r) ((text_eq_iff key rel).0 same) found in
            rw (only_local, found, same)
              (ih
                ∙ ap (only (find rel rest)) there
                ∙ only-some (find rel rest) r
                ∙ sym (ap (only (some e)) there))
      ]
      | inr other ↦ elim (Option-cases (find key remote)) [
        | inl gone ↦ rw (only_local, gone, other) ih
        | inr (r, found) ↦ rw (only_local, found, other) ih
      ]
    ]

join_pull : (r l : Option Entry) → chosen is_pull r l ≡ pulls r l
join_pull none l = refl
join_pull (some r) none = refl
join_pull (some r) (some l) = is_pull-decide r.size l.size r.mtime l.mtime

or_false : (b : Bool) → (b || false) ≡ b
or_false b = ground arith

join_push : (r l : Option Entry) → (chosen is_push r l || only l r) ≡ pushes r l
join_push none none = refl
join_push none (some l) = refl
join_push (some r) none = refl
join_push (some r) (some l) =
    or_false (is_push (decide r l)) ∙ is_push-decide r.size l.size r.mtime l.mtime

-- What the plan of a sync says about each path, whatever the order of the files. A path is pushed
-- if it is only local, or if both times are known and the local file is newer. A path is pulled if
-- it is only remote, or if the local file is not newer and the two differ: in size, or in time where
-- both times are given. Nothing else is transferred. Each path stands once among the remote files.
pub plan_sync_lem :
    (remote local : Tree) (rel : Bytes)
    → Distinct remote
    → (contains (plan_sync remote local).to_pull rel ≡ pulls (find rel remote) (find rel local))
      × (contains (plan_sync remote local).to_push rel ≡ pushes (find rel remote) (find rel local))
unfolding plan_sync contains
plan_sync_lem remote local rel distinct = (
  list-plan_remote (λ (p : Plan). p.to_pull) is_pull contains-to_pull-add (λ rel. refl) local remote
        rel distinct
      ∙ join_pull (find rel remote) (find rel local),
  contains-append (plan_remote local remote).to_push (only_local remote local) rel
      ∙ ap (λ (b : Bool). b || contains (only_local remote local) rel)
          (list-plan_remote (λ (p : Plan). p.to_push) is_push contains-to_push-add (λ rel. refl)
            local remote rel distinct)
      ∙ ap (λ (b : Bool). chosen is_push (find rel remote) (find rel local) || b)
          (contains-only_local remote local rel)
      ∙ join_push (find rel remote) (find rel local),
)
