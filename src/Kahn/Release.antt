-- ===== src/Kahn/Release.antt =====
-- What the `for` loop over the successors of a finished stage does.
use workflow_control.Prelude.{
  String, ℕ, ◌-◌, ◌≤◌, ◌<◌, List, [], ◌∷◌, ◌≡◌, refl, ◌↔◌, ◌⊎◌, inl, inr, ◌==◌, eq_iff, In,
  Distinct, Bool-cases, nat_eq, map_set, map_get-map_set, arith, if◌then◌else◌,
}
use workflow_control.Kahn.{State, degree, release, release_all}
use workflow_control.Kahn.Counts.{count}

-- To enqueue a stage adds it, wherever it is put.
pub record IsEnqueue (enqueue : List String → String → List String) : Type 0 where
  pub mem : (q : List String) (x y : String) → In y (enqueue q x) ↔ (In y q ⊎ (x ≡ y))
  pub distinct : (q : List String) (x : String) → Distinct q → ¬ In x q → Distinct (enqueue q x)

pub degree-map_set :
    (m : List (String × ℕ)) (k j : String) (d : ℕ)
    → degree (map_set m k d) j ≡ (if k == j then d else degree m j)
unfolding degree
degree-map_set m k j d = ground (arith, map_get-map_set m k j d)

abbrev pub deg : State → String → ℕ
deg s x = degree s.degrees x

-- The queue holds each stage once, and only stages that nothing holds back.
pub record IsFree (s : State) : Type 0 where
  pub distinct : Distinct s.queue
  pub free : (x : String) → In x s.queue → deg s x ≡ 0

module _ {enqueue : List String → String → List String} (law : IsEnqueue enqueue) where
  release-deg :
      (s : State) (n x : String) → deg (release enqueue s n) x ≡ deg s x - count x (n ∷ [])
  unfolding release
  release-deg s n x =
      ground (arith, degree-map_set s.degrees n x (degree s.degrees n - 1), eq_iff n x)

  release-queue :
      (s : State) (n x : String)
      → In x (release enqueue s n).queue
        ↔ (In x s.queue ⊎ (0 < deg s x) × (deg s x ≤ count x (n ∷ [])))
  unfolding release
  release-queue s n x = ground (arith, eq_iff n x, law.mem s.queue n x)

  release-IsFree : (s : State) (n : String) → IsFree s → IsFree (release enqueue s n)
  unfolding release
  release-IsFree s n h = record {
    distinct = elim (Bool-cases (nat_eq (degree s.degrees n) 1)) [
      | inl t ↦ rw t (law.distinct s.queue n h.distinct (λ m. ground (arith, h.free n m)))
      | inr f ↦ rw f h.distinct
    ];
    free = λ x m. ground (arith, release-deg s n x, release-queue s n x, h.free x);
  }

  pub release_all-deg :
      (s : State) (ns : List String) (x : String)
      → deg (release_all enqueue s ns) x ≡ deg s x - count x ns
  unfolding release_all
  release_all-deg s [] x = omega arith
  release_all-deg s (n ∷ ns) x =
      ground (arith, release-deg s n x, release_all-deg (release enqueue s n) ns x)

  pub release_all-queue :
      (s : State) (ns : List String) (x : String)
      → In x (release_all enqueue s ns).queue
        ↔ (In x s.queue ⊎ (0 < deg s x) × (deg s x ≤ count x ns))
  unfolding release_all
  release_all-queue s [] x = ground arith
  release_all-queue s (n ∷ ns) x =
      ground (
        arith,
        release-deg s n x,
        release-queue s n x,
        release_all-queue (release enqueue s n) ns x,
      )

  pub release_all-out : (s : State) (ns : List String) → (release_all enqueue s ns).out ≡ s.out
  unfolding release_all release
  release_all-out s [] = refl
  release_all-out s (n ∷ ns) = release_all-out (release enqueue s n) ns

  pub release_all-IsFree :
      (s : State) (ns : List String) → IsFree s → IsFree (release_all enqueue s ns)
  unfolding release_all
  release_all-IsFree s [] h = h
  release_all-IsFree s (n ∷ ns) h =
      release_all-IsFree (release enqueue s n) ns (release-IsFree s n h)
