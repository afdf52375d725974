-- ===== src/Api/Webhooks/Loop.antt =====
-- webhook-dispatcher.service.ts: the delivery loop for any answers of its sends.
use distributed_task_platfor.Prelude.{
  ℕ, zero, suc, ◌+◌, ◌≤◌, ◌≡◌, ◌⊎◌, ◌↔◌, subst, refl, ap, inl, inr, Bool, true, false, Option, none,
  some, List, [], ◌∷◌, length, arith,
}
use distributed_task_platfor.Jobs.{Error}
use distributed_task_platfor.Effects.{Settled, resolved, rejected}
use distributed_task_platfor.Api.Webhooks.{
  SignedRequest, Action, requests, sleeps, retry_delay, requested, deliver,
}

-- The requests that go out, and the sleeps between them.
abbrev pub requests_of : List Action → List SignedRequest
requests_of [] = []
requests_of (requests r ∷ rest) = r ∷ requests_of rest
requests_of (sleeps ms ∷ rest) = requests_of rest

abbrev pub waits_of : List Action → List ℕ
waits_of [] = []
waits_of (requests r ∷ rest) = waits_of rest
waits_of (sleeps ms ∷ rest) = ms ∷ waits_of rest

abbrev pub copies : ℕ → SignedRequest → List SignedRequest
copies zero r = []
copies (suc n) r = r ∷ copies n r

unfoldable pub Rejected : Settled (Unit {0}) → Type 0
Rejected (resolved u) = ⊥
Rejected (rejected e) = Unit

unfoldable pub Resolved : Settled (Unit {0}) → Type 0
Resolved (resolved u) = Unit
Resolved (rejected e) = ⊥

unfoldable pub AllRejected : (ℕ → Settled (Unit {0})) → ℕ → Type 0
AllRejected answers zero = Unit
AllRejected answers (suc n) = Rejected (answers n) × AllRejected answers n

Settled-cases : (s : Settled (Unit {0})) → (s ≡ resolved tt) ⊎ ((e : Error) × (s ≡ rejected e))
Settled-cases (resolved tt) = inl refl
Settled-cases (rejected e) = inr (e, refl)

module _ (answers : ℕ → Settled (Unit {0})) (randoms : ℕ → ℕ) (request : Option SignedRequest) where
  abbrev pub tries : ℕ → ℕ → List Action
  tries zero from = requested request []
  tries (suc n) from =
      requested request (sleeps (retry_delay (from + 1) (randoms from)) ∷ tries n (from + 1))

  -- How the loop ended, with `last` + 1 attempts.
  pub record Looped (last : ℕ) (ok : Bool) : Type 0 where
    pub bounded : last ≤ 3
    pub before : AllRejected answers last
    pub success : (ok ≡ true) ↔ Resolved (answers last)
    pub gives_up : ok ≡ false → last ≡ 3

  abbrev pub Ends : ℕ → Type 0
  Ends fuel =
      (last : ℕ) × (ok : Bool) × (deliver answers randoms request (suc (suc (suc (suc (suc fuel)))))
          0 false
        ≡ some (tries last 0, ok))
      × Looped last ok

  done :
      (last : ℕ)
      → answers last ≡ resolved tt
      → AllRejected answers last
      → last ≤ 3
      → Looped last true
  unfolding Resolved
  done last e before le = record {
    bounded = le;
    before = before;
    success = (λ _. rw e tt, λ _. refl);
    gives_up = λ f. absurd (cc f);
  }

  gave_up : (e : Error) → answers 3 ≡ rejected e → AllRejected answers 3 → Looped 3 false
  unfolding Resolved
  gave_up e e3 before = record {
    bounded = omega arith;
    before = before;
    success = (λ f. absurd (cc f), λ r. absurd (subst Resolved e3 r));
    gives_up = λ _. refl;
  }

  pub loop_ends : (fuel : ℕ) → Ends fuel
  unfolding deliver Rejected AllRejected
  loop_ends fuel = elim (Settled-cases (answers 0)) [
    | inl a0 ↦ (0, true, rw a0 refl, done 0 a0 tt (omega arith))
    | inr (e0, a0) ↦ elim (Settled-cases (answers 1)) [
      | inl a1 ↦ (1, true, rw (a0, a1) refl, done 1 a1 (rw a0 tt, tt) (omega arith))
      | inr (e1, a1) ↦ elim (Settled-cases (answers 2)) [
        | inl a2 ↦
            (2, true, rw (a0, a1, a2) refl, done 2 a2 (rw a1 tt, (rw a0 tt, tt)) (omega arith))
        | inr (e2, a2) ↦ elim (Settled-cases (answers 3)) [
          | inl a3 ↦ (
            3,
            true,
            rw (a0, a1, a2, a3) refl,
            done 3 a3 (rw a2 tt, (rw a1 tt, (rw a0 tt, tt))) (omega arith),
          )
          | inr (e3, a3) ↦ (
            3,
            false,
            rw (a0, a1, a2, a3) refl,
            gave_up e3 a3 (rw a2 tt, (rw a1 tt, (rw a0 tt, tt))),
          )
        ]
      ]
    ]
  ]

abbrev pub backoff : ℕ → ℕ → (ℕ → ℕ) → List ℕ
backoff zero from randoms = []
backoff (suc n) from randoms = retry_delay (from + 1) (randoms from) ∷ backoff n (from + 1) randoms

module _ (answers : ℕ → Settled (Unit {0})) (randoms : ℕ → ℕ) where
  pub waits_of-tries :
      (o : Option SignedRequest) (n from : ℕ)
      → waits_of (tries answers randoms o n from) ≡ backoff n from randoms
  waits_of-tries none zero from = refl
  waits_of-tries (some r) zero from = refl
  waits_of-tries none (suc n) from = rw (waits_of-tries none n (from + 1)) refl
  waits_of-tries (some r) (suc n) from = rw (waits_of-tries (some r) n (from + 1)) refl

  pub requests_of-none : (n from : ℕ) → requests_of (tries answers randoms none n from) ≡ []
  requests_of-none zero from = refl
  requests_of-none (suc n) from = requests_of-none n (from + 1)

  pub requests_of-some :
      (r : SignedRequest) (n from : ℕ)
      → requests_of (tries answers randoms (some r) n from) ≡ copies (suc n) r
  requests_of-some r zero from = refl
  requests_of-some r (suc n) from = ap (λ rs. r ∷ rs) (requests_of-some r n (from + 1))

pub length-backoff : (n from : ℕ) (randoms : ℕ → ℕ) → length (backoff n from randoms) ≡ n
length-backoff zero from randoms = refl
length-backoff (suc n) from randoms = omega (arith, length-backoff n (from + 1) randoms)
