-- ===== src/Logging/Levels.antt =====
-- What a program prints, by the level that it is built with.
use mtnet.Prelude.{
  ℕ, ◌*◌, ◌≡◌, ◌≤◌, refl, sym, ap, ◌∙◌, subst, List, [], ◌∷◌, ◌++◌, true, false, length, take, leb,
  if◌then◌else◌, length-append, length-take, arith, Bool-cases, inl, inr,
}
use mtnet.Logging.{
  LogLevel, level_trace, level_debug, level_info, level_warn, level_error, level_fatal, value,
  actual_print, log,
}

-- A call: its function and its text.
abbrev pub Call : Type 0
Call = LogLevel × List ℕ

-- What the calls of a program print, in order.
abbrev pub print_all : LogLevel → List Call → List ℕ
print_all log_level [] = []
print_all log_level (c ∷ cs) = log log_level c.0 c.1 ++ print_all log_level cs

-- The calls of a level or a more serious one.
abbrev pub at_least : LogLevel → List Call → List Call
at_least l [] = []
at_least l (c ∷ cs) = if leb (value l) (value c.0) then c ∷ at_least l cs else at_least l cs

-- The lines of calls, without regard to their levels: up to 511 characters of each text, a blank and
-- the end of the line.
abbrev pub lines : List Call → List ℕ
lines [] = []
lines (c ∷ cs) = (take 511 c.1 ++ 32 ∷ 10 ∷ []) ++ lines cs

actual_print_lem : (text : List ℕ) → actual_print text ≡ take 511 text ++ 32 ∷ 10 ∷ []
unfolding actual_print
actual_print_lem text = refl

log-actual_print :
    (log_level l : LogLevel) (text : List ℕ)
    → log log_level l text ≡ (if leb (value log_level) (value l) then actual_print text else [])
unfolding log
log-actual_print log_level level_trace text = refl
log-actual_print log_level level_debug text = refl
log-actual_print log_level level_info text = refl
log-actual_print log_level level_warn text = refl
log-actual_print log_level level_error text = refl
log-actual_print log_level level_fatal text = refl

leb_trans : (a b c : ℕ) → a ≤ b → leb b c ≡ true → leb a c ≡ true
leb_trans a b c h e = ground arith

length-actual_print : (text : List ℕ) → length (actual_print text) ≤ 513
unfolding actual_print
length-actual_print text =
    omega (arith, length-append (take 511 text) (32 ∷ 10 ∷ []), length-take 511 text)

printed :
    (log_level l : LogLevel) (text : List ℕ)
    → leb (value log_level) (value l) ≡ true
    → log log_level l text ≡ actual_print text
printed log_level l text e = log-actual_print log_level l text ∙ rw e refl

silent :
    (log_level l : LogLevel) (text : List ℕ)
    → leb (value log_level) (value l) ≡ false
    → log log_level l text ≡ []
silent log_level l text e = log-actual_print log_level l text ∙ rw e refl

-- A program that is built with a higher `LOG_LEVEL` prints, in the same order, what it prints with a
-- lower one in the calls of that level or a more serious one: for each of those calls, and no other,
-- the first 511 characters of its text, a blank and the end of the line, so at most 513 characters.
pub print_all-at_least :
    (a b : LogLevel) (calls : List Call)
    → value a ≤ value b
    → (print_all b calls ≡ print_all a (at_least b calls))
      × (print_all b calls ≡ lines (at_least b calls))
      × (length (print_all b calls) ≤ 513 * length (at_least b calls))
print_all-at_least a b [] h = (refl, refl, omega arith)
print_all-at_least a b (c ∷ cs) h =
    let (same, text, few) = print_all-at_least a b cs h in
    elim (Bool-cases (leb (value b) (value c.0))) [
      | inl e ↦
          let at_b = printed b c.0 c.1 e in
          let at_a = printed a c.0 c.1 (leb_trans _ _ _ h e) in
          rw e (
            ap (λ x. x ++ print_all b cs) (at_b ∙ sym at_a) ∙ ap (◌++◌ (log a c.0 c.1)) same,
            ap (λ x. x ++ print_all b cs) (at_b ∙ actual_print_lem c.1)
                ∙ ap (◌++◌ (take 511 c.1 ++ 32 ∷ 10 ∷ [])) text,
            omega (
              arith,
              length-append (log b c.0 c.1) (print_all b cs),
              ap length at_b,
              length-actual_print c.1,
              few,
            ),
          )
      | inr e ↦
          let at_b = silent b c.0 c.1 e in
          rw e (
            ap (λ x. x ++ print_all b cs) at_b ∙ same,
            ap (λ x. x ++ print_all b cs) at_b ∙ text,
            subst (λ x. length (x ++ print_all b cs) ≤ 513 * length (at_least b cs)) (sym at_b) few,
          )
    ]
