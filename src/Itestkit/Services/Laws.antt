-- ===== src/Itestkit/Services/Laws.antt =====
-- No container is lost: each one that a starter has started is held by a resource or was asked to
-- terminate.
use aeternixth_go_lib.Prelude.{
  ℕ, suc, ◌≤◌, ◌<◌, Bool, true, false, ◌||◌, ◌==◌, String, List, [], ◌∷◌, ◌++◌, Option, none, some,
  ◌≡◌, refl, ap, ◌∙◌, ◌⊎◌, inl, inr, arith,
}
use Prim.Native.String
use aeternixth_go_lib.Itestkit.Docker.{
  Client, Customizer, Image, Docker, terminate, drop_container, run_container, answered, on_result,
  or_terminate,
}
use aeternixth_go_lib.Itestkit.Services.{start_container, terminate_all, start_all}

abbrev pub elem : ℕ → List ℕ → Bool
elem i [] = false
elem i (c ∷ s) = c == i || elem i s

-- One of the resources is the container.
abbrev pub holds : {Res : Type 0} → (Res → ℕ) → List (String × Res) → ℕ → Bool
holds container [] i = false
holds container ((name, r) ∷ rest) i = container r == i || holds container rest i

-- At most one container.
abbrev pub listed : Option ℕ → List ℕ
listed none = []
listed (some c) = c ∷ []

-- The containers started from number `n` on were asked to terminate, are held as `p` says, or are
-- the one that was dropped, if one was.
abbrev pub Owned : ℕ → Option ℕ → (ℕ → Bool) → Docker → Type 0
Owned n lost p d =
    ((i : ℕ)
      → n ≤ i
      → i < d.started
      → (elem i d.terminated || (p i || elem i (listed lost))) ≡ true)
    × (d.dropped ≡ listed lost)

-- After an error of a start one may have been dropped.
abbrev pub Left : ℕ → (ℕ → Bool) → Docker → Type 0
Left n p d = (lost : Option ℕ) × Owned n lost p d

-- What one start does: a resource holds the one container that it started; an error starts none,
-- leaves the one that it started terminated, or drops the one that came with the error.
abbrev pub Started : {Res : Type 0} → (Res → ℕ) → Docker → (Res ⊎ String) × Docker → Type 0
Started container d (inl r, d') =
    (container r ≡ d.started) × (d' ≡ record d { started = suc d.started })
Started container d (inr err, d') =
    (d' ≡ d)
    ⊎ ((d' ≡ terminate d.started (record d { started = suc d.started })) ⊎ (d' ≡ drop_container d))

module _ {Res : Type 0} (container : Res → ℕ) where
  -- The state after a run of a container.
  abbrev pub after_run : Docker → Docker
  after_run d = record d { started = suc d.started }

  pub or_terminate-Started :
      {A : Type 0} (wrap : String → String) (d : Docker) (answer : A ⊎ String)
      (go : A → (Res ⊎ String) × Docker)
      → ((a : A) → Started container d (go a))
      → Started container d (or_terminate d.started wrap (after_run d) answer go)
  or_terminate-Started wrap d (inr err) go h = inr (inl refl)
  or_terminate-Started wrap d (inl a) go h = h a

  pub start_container-Started :
      (k : Client) (kind : Image) (image : String) (customizers : List Customizer ⊎ String)
      (body : ℕ → Docker → (Res ⊎ String) × Docker) (d : Docker)
      → Started container d (body d.started (after_run d))
      → Started container d (start_container k kind image customizers body d)
  unfolding start_container run_container
  start_container-Started k kind image (inr err) body d h = inl refl
  start_container-Started k kind image (inl cs) body d h =
      go (k.hands_back kind image cs d.started) (k.run kind image cs d.started)
    where
      go :
          (back : Bool) (answer : Option String)
          → Started container d (on_result body (λ err d'. (inr err, d')) (answered d back answer))
      go true (some err) = inr (inr refl)
      go false (some err) = inl refl
      go true none = h
      go false none = h

  holds-append :
      (xs ys : List (String × Res)) (i : ℕ)
      → holds container (xs ++ ys) i ≡ (holds container xs i || holds container ys i)
  holds-append [] ys i = refl
  holds-append ((name, r) ∷ xs) ys i = ground (arith, holds-append xs ys i)

  -- The termination of resources takes over what they held.
  pub terminate_all-Owned :
      (n : ℕ) (lost : Option ℕ) (p : ℕ → Bool) (out : List (String × Res)) (d : Docker)
      → Owned n lost (λ i. holds container out i || p i) d
      → Owned n lost p (terminate_all container false out d)
  unfolding terminate_all
  terminate_all-Owned n lost p [] d o = o
  terminate_all-Owned n lost p ((name, r) ∷ out) d (o, e) =
      terminate_all-Owned n lost p out (terminate (container r) d)
        (λ i h b. ground (arith, o i h b), e)

  Started-Owned :
      (n : ℕ) (p : ℕ → Bool) (out : List (String × Res)) (name : String) (d d' : Docker) (r : Res)
      → Started container d (inl r, d')
      → Owned n none (λ i. holds container out i || p i) d
      → Owned n none (λ i. holds container (out ++ (name, r) ∷ []) i || p i) d'
  Started-Owned n p out name d d' r (c, e) (o, dropped) = (
    λ i h b. ground (
      arith,
      o i h,
      holds-append out ((name, r) ∷ []) i,
      ap (λ x. x.started) e,
      ap (λ x. x.terminated) e,
    ),
    ap (λ x. x.dropped) e ∙ dropped,
  )

  Started-Owned_error :
      (n : ℕ) (p : ℕ → Bool) (d d' : Docker) (err : String)
      → Started container d (inr err, d')
      → Owned n none p d
      → Left n p d'
  Started-Owned_error n p d d' err (inl e) o = rw e (none, o)
  Started-Owned_error n p d d' err (inr (inl e)) (o, dropped) =
      rw e (none, (λ i h b. ground (arith, o i h), dropped))
  Started-Owned_error n p d d' err (inr (inr e)) (o, dropped) =
      rw e (some d.started, (λ i h b. ground (arith, o i h), ap (λ rest. d.started ∷ rest) dropped))

-- What a loop of starts leaves: its resources hold what it started, and after an error nothing is
-- left to hold.
abbrev pub AllStarted :
    {Res : Type 0} → (Res → ℕ) → ℕ → (ℕ → Bool) → (List (String × Res) ⊎ String) × Docker → Type 0
AllStarted container n p (inl out, d) = Owned n none (λ i. holds container out i || p i) d
AllStarted container n p (inr err, d) = Left n p d

module _ {Cfg Res : Type 0} (container : Res → ℕ) (what : String)
    (start_one : String → Cfg → Docker → (Res ⊎ String) × Docker)
    (starts : (name : String) (cfg : Cfg) (d : Docker)
      → Started container d (start_one name cfg d)) where
  pub start_all-AllStarted :
      (n : ℕ) (p : ℕ → Bool) (cfgs : List (String × Cfg)) (out : List (String × Res)) (d : Docker)
      → Owned n none (λ i. holds container out i || p i) d
      → AllStarted container n p (start_all container false what start_one cfgs out d)
  unfolding start_all
  start_all-AllStarted n p [] out d o = o
  start_all-AllStarted n p ((name, cfg) ∷ rest) out d o =
      go (λ r d' o'. start_all-AllStarted n p rest (out ++ (name, r) ∷ []) d' o')
        (start_one name cfg d) (starts name cfg d)
    where
      go :
          ((r : Res) (d' : Docker)
            → Owned n none (λ i. holds container (out ++ (name, r) ∷ []) i || p i) d'
            → AllStarted container n p
                (start_all container false what start_one rest (out ++ (name, r) ∷ []) d'))
          → (x : (Res ⊎ String) × Docker) → Started container d x
          → AllStarted container n p (
              on_result
                (λ r. start_all container false what start_one rest (out ++ (name, r) ∷ []))
                (λ err d'. (
                  inr (
                      String.◌++◌ "start " (
                        String.◌++◌ what
                          (String.◌++◌ "[" (String.◌++◌ name (String.◌++◌ "]: " err))))),
                  terminate_all container false out d',
                ))
                x)
      go next (inl r, d') s = next r d' (Started-Owned container n p out name d d' r s o)
      go next (inr err, d') s =
          let (lost, left) =
            Started-Owned_error container n (λ i. holds container out i || p i) d d' err s o in
          (lost, terminate_all-Owned container n lost p out d' left)
