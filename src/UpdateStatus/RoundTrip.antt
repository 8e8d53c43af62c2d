-- ===== src/UpdateStatus/RoundTrip.antt =====
-- `parse` reads what `encode` writes.
use mathlib.Core.Path.{subst}
use rsh.Prelude.{
  append_assoc, ℕ, zero, suc, ◌-◌, ◌^◌, ◌<◌, ◌≡◌, refl, ap, ◌∙◌, Bool, true, false, Option, none,
  some, List, [], ◌∷◌, ◌++◌, arith, length, get_or, take, length-append, take-append,
}
use rsh.Text.{
  trim_end, Text, chars, text_eq, trim, trim_matches, is_whitespace, trim_end-snoc, AllNot,
}
use rsh.Text.Number.{
  pos, InI64, show_nat, show_int, parse_u32, parse_i64, parse_u32-show_nat, parse_i64-show_int,
}
use rsh.UpdateStatus.{
  split_colon, assign, assign_pair, or_else, UpdateStatus, is_quote, sanitize_reason,
  without_unsafe, show_bool, object_body, encode, inner, split_top_level_commas, split_from,
  parse_part, parse_parts, Parsed, unparsed, finish, parse, or_else,
}
use rsh.UpdateStatus.Fields.{
  IsPlain, show_nat-IsPlain, show_int-IsPlain, show_bool-IsPlain, trim_end-plain, trim-plain,
  trim_end-quoted, trim_matches-quoted, split_from-quoted, split_from-plain,
}

get_or-snoc : (m : Text) (c n : ℕ) → n ≡ length m → get_or (m ++ (c ∷ [])) n 0 ≡ c
get_or-snoc [] c zero e = refl
get_or-snoc [] c (suc n) e = absurd (omega arith)
get_or-snoc (x ∷ xs) c zero e = absurd (omega arith)
get_or-snoc (x ∷ xs) c (suc n) e = get_or-snoc xs c n (omega arith)

inner-braces : (m : Text) → inner (trim (b'{' ∷ (m ++ (b'}' ∷ [])))) ≡ some m
inner-braces m =
    let s : Text = m ++ (b'}' ∷ []) in
    let n : suc (length s) - 1 ≡ suc (length m) = omega (arith, length-append m (b'}' ∷ [])) in
    ap inner (trim_end-snoc is_whitespace (b'{' ∷ m) b'}' refl)
    ∙ rw (n, get_or-snoc (b'{' ∷ m) b'}' (suc (length m)) refl)
        (ap some (take-append (suc (length m) - 1) m (b'}' ∷ []) (omega arith)))

abbrev continue_with : List Text → Option Parsed → Option Parsed
continue_with parts none = none
continue_with parts (some p) = parse_parts parts p

-- One part, of which `k` is what follows the first quote up to the value, and `q` up to the colon.
parse_part-plain :
    (k q key v : Text) (p : Parsed)
    → ((t : Text) → split_colon (b'"' ∷ (k ++ t)) ≡ some (q, b' ' ∷ t))
    → trim_matches is_quote (trim q) ≡ key
    → IsPlain v
    → parse_part (b' ' ∷ b'"' ∷ (k ++ v)) p ≡ some (assign key v p)
parse_part-plain k q key v p colon name plain =
    ap (λ (t : Text). assign_pair (split_colon t) p) (trim_end-plain (b'"' ∷ k) v plain)
    ∙ ap (λ (o : Option (Text × Text)). assign_pair o p) (colon v)
    ∙ ap (λ (t : Text). some (assign t (trim (b' ' ∷ v)) p)) name
    ∙ ap (λ (t : Text). some (assign key t p)) (trim-plain v plain)

parse_part-quoted :
    (part k q key v : Text) (p : Parsed)
    → trim part ≡ trim (b'"' ∷ (k ++ (b'"' ∷ (v ++ (b'"' ∷ [])))))
    → ((t : Text) → split_colon (b'"' ∷ (k ++ t)) ≡ some (q, b' ' ∷ t))
    → trim_matches is_quote (trim q) ≡ key
    → parse_part part p ≡ some (assign key (b'"' ∷ (v ++ (b'"' ∷ []))) p)
parse_part-quoted part k q key v p start colon name =
    let quoted : Text = b'"' ∷ (v ++ (b'"' ∷ [])) in
    let kept = trim_end-quoted (b'"' ∷ (k ++ (b'"' ∷ []))) v in
    ap (λ (t : Text). assign_pair (split_colon t) p)
      (start
        ∙ subst (λ (t : Text). trim_end is_whitespace t ≡ t)
            (append_assoc (b'"' ∷ k) (b'"' ∷ []) (v ++ (b'"' ∷ []))) kept)
    ∙ ap (λ (o : Option (Text × Text)). assign_pair o p) (colon quoted)
    ∙ ap (λ (t : Text). some (assign t (trim (b' ' ∷ quoted)) p)) name
    ∙ ap (λ (t : Text). some (assign key t p)) (trim_end-quoted (b'"' ∷ []) v)

parse_parts-cons :
    (part : Text) (parts : List Text) (p p' : Parsed)
    → parse_part part p ≡ some p'
    → parse_parts (part ∷ parts) p ≡ parse_parts parts p'
parse_parts-cons part parts p p' e = ap (continue_with parts) e

-- The parts between the commas.
module _ (status ts active started failures prev : Text) (clean : AllNot is_quote status)
    (ts_plain : IsPlain ts) (active_plain : IsPlain active) (started_plain : IsPlain started)
    (failures_plain : IsPlain failures) (prev_clean : AllNot is_quote prev) where
  abbrev status_part : Text
  status_part = chars "\"status\": \"" ++ (status ++ chars "\"")

  abbrev prev_part : Text
  prev_part = chars " \"previous_binary_path\": \"" ++ (prev ++ chars "\"")

  -- The parts from one on.
  abbrev from_prev : List Text
  from_prev = prev_part ∷ []

  abbrev from_failures : List Text
  from_failures = (chars " \"consecutive_heartbeat_failures\": " ++ failures) ∷ from_prev

  abbrev from_started : List Text
  from_started = (chars " \"watchdog_started_at\": " ++ started) ∷ from_failures

  abbrev from_active : List Text
  from_active = (chars " \"watchdog_active\": " ++ active) ∷ from_started

  abbrev from_ts : List Text
  from_ts = (chars " \"ts\": " ++ ts) ∷ from_active

  split-object_body :
      split_top_level_commas (object_body status ts active started failures prev)
      ≡ status_part ∷ from_ts
  unfolding split_top_level_commas split_from
  split-object_body =
      rw
        (
          split_from-quoted status _ (chars "\"status\": \"") clean,
          split_from-plain ts _ (chars " \"ts\": ") ts_plain.no_mark,
          split_from-plain active _ (chars " \"watchdog_active\": ") active_plain.no_mark,
          split_from-plain started _ (chars " \"watchdog_started_at\": ") started_plain.no_mark,
          split_from-plain failures _ (chars " \"consecutive_heartbeat_failures\": ")
              failures_plain.no_mark,
          split_from-quoted prev _ (chars " \"previous_binary_path\": \"") prev_clean,
        )
        refl

  -- What the loop over the parts makes of them, from the texts for the two values in quotes.
  abbrev parsed : Text → Text → Parsed
  parsed status_value prev_value = record {
    status = some status_value;
    ts = parse_i64 ts;
    watchdog_active = text_eq active (chars "true");
    watchdog_started_at = or_else (pos 0) (parse_i64 started);
    consecutive_heartbeat_failures = or_else 0 (parse_u32 failures);
    previous_binary_path = prev_value;
  }

  abbrev quoted : Text → Text
  quoted v = b'"' ∷ (v ++ (b'"' ∷ []))

  parse_parts-object_body :
      parse_parts
        (split_top_level_commas (object_body status ts active started failures prev))
        unparsed
      ≡ some (parsed status prev)
  parse_parts-object_body =
      let p1 : Parsed = assign (chars "status") (quoted status) unparsed in
      let p2 : Parsed = assign (chars "ts") ts p1 in
      let p3 : Parsed = assign (chars "watchdog_active") active p2 in
      let p4 : Parsed = assign (chars "watchdog_started_at") started p3 in
      let p5 : Parsed = assign (chars "consecutive_heartbeat_failures") failures p4 in
      let p6 : Parsed = assign (chars "previous_binary_path") (quoted prev) p5 in
      ap (λ (parts : List Text). parse_parts parts unparsed) split-object_body
      ∙ parse_parts-cons status_part from_ts unparsed p1 (
          parse_part-quoted status_part (chars "status\": ") (chars "\"status\"") (chars "status")
            status unparsed refl (λ _. refl) refl)
      ∙ parse_parts-cons (chars " \"ts\": " ++ ts) from_active p1 p2 (
          parse_part-plain (chars "ts\": ") (chars "\"ts\"") (chars "ts") ts p1 (λ _. refl) refl
            ts_plain)
      ∙ parse_parts-cons (chars " \"watchdog_active\": " ++ active) from_started p2 p3 (
          parse_part-plain (chars "watchdog_active\": ") (chars "\"watchdog_active\"")
            (chars "watchdog_active") active p2 (λ _. refl) refl active_plain)
      ∙ parse_parts-cons (chars " \"watchdog_started_at\": " ++ started) from_failures p3 p4 (
          parse_part-plain (chars "watchdog_started_at\": ") (chars "\"watchdog_started_at\"")
            (chars "watchdog_started_at") started p3 (λ _. refl) refl started_plain)
      ∙ parse_parts-cons (chars " \"consecutive_heartbeat_failures\": " ++ failures) from_prev p4 p5
          (parse_part-plain (chars "consecutive_heartbeat_failures\": ")
            (chars "\"consecutive_heartbeat_failures\"") (chars "consecutive_heartbeat_failures")
            failures p4 (λ _. refl) refl failures_plain)
      ∙ parse_parts-cons prev_part [] p5 p6 (
          parse_part-quoted prev_part (chars "previous_binary_path\": ")
            (chars "\"previous_binary_path\"") (chars "previous_binary_path") prev p5 refl
            (λ _. refl) refl)
      ∙ ap (λ (t : Text). some (parsed t (trim_matches is_quote (quoted prev))))
          (trim_matches-quoted status clean)
      ∙ ap (λ (t : Text). some (parsed status t)) (trim_matches-quoted prev prev_clean)

without_unsafe-clean : (cs : Text) → AllNot is_quote (without_unsafe cs)
unfolding without_unsafe
without_unsafe-clean [] = tt
without_unsafe-clean (c ∷ cs) = let rest = without_unsafe-clean cs in ground arith

take-clean : (n : ℕ) (cs : Text) → AllNot is_quote cs → AllNot is_quote (take n cs)
take-clean zero cs clean = tt
take-clean (suc n) [] clean = tt
take-clean (suc n) (c ∷ cs) clean = (clean.0, take-clean n cs clean.1)

pub sanitize_reason-clean : (reason : Text) → AllNot is_quote (sanitize_reason reason)
unfolding sanitize_reason
sanitize_reason-clean reason = take-clean 80 (without_unsafe reason) (without_unsafe-clean reason)

-- The records that the program can hold: numbers in range, and a status without quotes.
pub record IsValid (s : UpdateStatus) : Type 0 where
  pub status_clean : AllNot is_quote s.status
  pub ts_fits : InI64 s.ts
  pub started_fits : InI64 s.watchdog_started_at
  pub failures_fit : s.consecutive_heartbeat_failures < 2 ^ 32

text_eq-show_bool : (b : Bool) → text_eq (show_bool b) (chars "true") ≡ b
text_eq-show_bool true = refl
text_eq-show_bool false = refl

abbrev finish_parts : Option Parsed → Option UpdateStatus
finish_parts none = none
finish_parts (some p) = finish p

abbrev finish_inner : Option Text → Option UpdateStatus
finish_inner none = none
finish_inner (some s) = finish_parts (parse_parts (split_top_level_commas s) unparsed)

-- `parse` gives back the record that `encode` wrote, but for the path of the previous binary,
-- which `encode` sanitizes. The status has no quotes and the numbers fit their types.
pub parse-encode :
    (s : UpdateStatus)
    → IsValid s
    → parse (encode s)
      ≡ some (record s { previous_binary_path = sanitize_reason s.previous_binary_path })
unfolding parse encode
parse-encode s valid =
    let prev = sanitize_reason s.previous_binary_path in
    let body =
      object_body s.status (show_int s.ts) (show_bool s.watchdog_active)
        (show_int s.watchdog_started_at) (show_nat s.consecutive_heartbeat_failures) prev in
    ap finish_inner (inner-braces body)
    ∙ ap finish_parts (
        parse_parts-object_body s.status (show_int s.ts) (show_bool s.watchdog_active)
          (show_int s.watchdog_started_at) (show_nat s.consecutive_heartbeat_failures) prev
          valid.status_clean (show_int-IsPlain s.ts) (show_bool-IsPlain s.watchdog_active)
          (show_int-IsPlain s.watchdog_started_at)
          (show_nat-IsPlain s.consecutive_heartbeat_failures)
          (sanitize_reason-clean s.previous_binary_path))
    ∙ rw
        (
          parse_i64-show_int s.ts valid.ts_fits,
          parse_i64-show_int s.watchdog_started_at valid.started_fits,
          parse_u32-show_nat s.consecutive_heartbeat_failures valid.failures_fit,
          text_eq-show_bool s.watchdog_active,
        )
        refl
