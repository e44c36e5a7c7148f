-- ===== src/Itestkit/Setup/Plan.antt =====
-- Plans: what a setup is to do, call by call, without its control flow. A setup follows a plan when
-- it makes the plan's calls in order up to the first that fails, and fails just where a call does.
use aeternixth_go_lib.Prelude.{
  ℕ, Bool, true, false, ◌||◌, not, leb, String, List, [], ◌∷◌, ◌++◌, Option, none, some, ◌≡◌, refl,
  sym, ap, ◌∙◌, ◌⊎◌, inl, inr, arith, if◌then◌else◌, ◌==◌, flat_map,
}
use aeternixth_go_lib.Itestkit.Outside.{
  Outside, Event, put_expectation, exec_file, History, Failure, Act, bound, wrapped, answer, pure,
  fail, ◌>>=◌, ◌>>◌, or_wrap, call, for_each,
}

-- A call, which may depend on the calls before it, or a point where the setup ends in an error.
pub data Task : Type 0 where
  does : (History → Event) → Task
  stop : Task

abbrev pub one : Event → List Task
one e = does (λ h. e) ∷ []

-- The steps that need a value, which may be missing.
abbrev pub with_value : {A E : Type 0} → A ⊎ E → (A → List Task) → List Task
with_value (inl a) f = f a
with_value (inr err) f = stop ∷ []

abbrev pub is_error : Option String → Bool
is_error none = false
is_error (some err) = true

abbrev pub succeeded : {A : Type 0} → A ⊎ Failure → Bool
succeeded (inl a) = true
succeeded (inr err) = false

module _ (out : Outside) where
  -- A call fails by its error; the answer to an expectation also by its status, and a script by its
  -- exit code.
  unfoldable pub call_fails : History → Event → Bool
  call_fails h (put_expectation u j) =
      is_error (out.fails h (put_expectation u j))
      || leb 300 (out.http_reply (h ++ put_expectation u j ∷ [])).0
  call_fails h (exec_file c t) =
      is_error (out.fails h (exec_file c t))
      || not ((out.exit_code (h ++ exec_file c t ∷ [])).0 == 0)
  call_fails h e = is_error (out.fails h e)

  -- Whether every step of a plan succeeds, and the history then, where the first failure ends it.
  unfoldable pub perform : List Task → History → Bool × History
  unfolding call_fails
  perform [] h = (true, h)
  perform (stop ∷ plan) h = (false, h)
  perform (does e ∷ plan) h =
      let rest = perform plan (h ++ e h ∷ []) in
      if call_fails h (e h) then (false, h ++ e h ∷ []) else rest

  abbrev pub then_perform : List Task → Bool × History → Bool × History
  then_perform plan (true, h) = perform plan h
  then_perform plan (false, h) = (false, h)

  pub perform-append :
      (p q : List Task) (h : History) → perform (p ++ q) h ≡ then_perform q (perform p h)
  unfolding perform
  perform-append [] q h = refl
  perform-append (stop ∷ p) q h = refl
  perform-append (does e ∷ p) q h = ground (arith, perform-append p q (h ++ e h ∷ []))

  -- The result of a part of the setup, without its value and its error's text.
  abbrev pub ending : {A : Type 0} → (A ⊎ Failure) × History → Bool × History
  ending (r, h) = (succeeded r, h)

  abbrev pub Follows : {A : Type 0} → Act A → List Task → Type 0
  Follows m plan = (h : History) → ending (m h) ≡ perform plan h

  pub pure-Follows : Follows (pure tt) []
  unfolding perform
  pure-Follows h = refl

  pub fail-Follows : (err : Failure) → Follows {A = Unit {0}} (fail err) (stop ∷ [])
  unfolding perform
  fail-Follows err h = refl

  ending-wrapped :
      {A : Type 0} (w : Failure → Failure) (x : (A ⊎ Failure) × History)
      → ending (wrapped w x) ≡ ending x
  ending-wrapped w (inl a, h) = refl
  ending-wrapped w (inr err, h) = refl

  pub or_wrap-Follows :
      {A : Type 0} (label : List ℕ) (m : Act A) (plan : List Task)
      → Follows m plan
      → Follows (or_wrap label m) plan
  or_wrap-Follows label m plan f h = ending-wrapped (Failure.wrap label) (m h) ∙ f h

  ending-bound :
      (k : Act (Unit {0})) (q : List Task) (x : (Unit {0} ⊎ Failure) × History)
      → Follows k q
      → ending (bound (λ _. k) x) ≡ then_perform q (ending x)
  ending-bound k q (inl a, h) g = g h
  ending-bound k q (inr err, h) g = refl

  pub then-Follows :
      (m k : Act (Unit {0})) (p q : List Task)
      → Follows m p
      → Follows k q
      → Follows (m >> k) (p ++ q)
  then-Follows m k p q f g h =
      ending-bound k q (m h) g ∙ ap (then_perform q) (f h) ∙ sym (perform-append p q h)

  -- A loop of calls.
  pub for_each-Follows :
      {A : Type 0} (body : A → Act (Unit {0})) (f : A → List Task) (xs : List A)
      → ((a : A) → Follows (body a) (f a))
      → Follows (for_each body xs) (flat_map f xs)
  unfolding for_each flat_map
  for_each-Follows body f [] g = pure-Follows
  for_each-Follows body f (a ∷ xs) g =
      then-Follows (body a) (for_each body xs) (f a) (flat_map f xs) (g a)
        (for_each-Follows body f xs g)

  -- A part that needs a value.
  pub value-Follows :
      {A E : Type 0} (r : A ⊎ E) (make : A ⊎ E → Act A) (k : A → Act (Unit {0})) (f : A → List Task)
      → ((a : A) → make (inl a) ≡ pure a)
      → ((e : E) → (err : Failure) × (make (inr e) ≡ fail err))
      → ((a : A) → Follows (k a) (f a))
      → Follows (make r >>= k) (with_value r f)
  unfolding perform
  value-Follows (inl a) make k f good bad g h = ap (λ m. ending (bound k (m h))) (good a) ∙ g a h
  value-Follows (inr e) make k f good bad g h = ap (λ m. ending (bound k (m h))) (bad e).1

  ending-answer :
      (o : Option String) (h : History)
      → ending (answer out o h) ≡ (if is_error o then (false, h) else (true, h))
  ending-answer none h = refl
  ending-answer (some err) h = refl

  -- A call whose failure is its error only.
  pub call-Follows :
      (e : Event)
      → ((h : History) → call_fails h e ≡ is_error (out.fails h e))
      → Follows (call out e) (one e)
  unfolding call perform
  call-Follows e f h = rw (f h) (ending-answer (out.fails h e) (h ++ e ∷ []))

  ending-checked :
      (label : List ℕ) (o : Option String) (check : Act (Unit {0})) (h : History) (bad : Bool)
      → ending (check h) ≡ (not bad, h)
      → ending ((or_wrap label (answer out o) >> check) h)
        ≡ (if is_error o || bad then (false, h) else (true, h))
  ending-checked label none check h bad e = ground (arith, e)
  ending-checked label (some err) check h bad e = refl

  -- A call whose answer is checked.
  pub checked-Follows :
      (label : List ℕ) (e : Event) (check : Act (Unit {0})) (bad : History → Bool)
      → ((h : History) → ending (check h) ≡ (not (bad h), h))
      → ((h : History) → call_fails h e ≡ (is_error (out.fails h e) || bad (h ++ e ∷ [])))
      → Follows (or_wrap label (call out e) >> check) (one e)
  unfolding call perform
  checked-Follows label e check bad c f h = rw (f h) (
      ending-checked label (out.fails h e) check (h ++ e ∷ []) (bad (h ++ e ∷ []))
        (c (h ++ e ∷ [])))
