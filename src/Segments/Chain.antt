-- ===== src/Segments/Chain.antt =====
-- Segments as chains of stages, and how a walk extends them.
use workflow_control.Prelude.{
  String, ℕ, zero, suc, some, List, [], ◌∷◌, ◌++◌, ◌≡◌, refl, sym, ap, subst, ◌∙◌, ◌↔◌, ◌⊎◌, inl,
  inr, length, get_elem?, set_add, set_add_iff, In, In-append, All, Distinct, Distinct-append,
  Distinct-snoc, Distinct-split, arith,
}
use mathlib.Core.List.{append_assoc}
use mathlib.Core.Option.{some-injective}
use workflow_control.Segments.{push_at}

-- segments.flat()
abbrev pub flat : List (List String) → List String
flat [] = []
flat (seg ∷ segs) = seg ++ flat segs

-- Segment `i` exists and holds the stage.
abbrev pub Holds : List (List String) → ℕ → String → Type 0
Holds segs i x = (seg : List String) × (get_elem? segs i ≡ some seg) × In x seg

pub In-flat-push_at :
    (segs : List (List String)) (i : ℕ) (n x y : String)
    → Holds segs i y
    → In x (flat (push_at segs i n)) ↔ (In x (flat segs) ⊎ (n ≡ x))
unfolding push_at
In-flat-push_at [] i n x y (seg, e, m) = cc
In-flat-push_at (seg ∷ segs) zero n x y h = ground (
  arith,
  In-append x (seg ++ n ∷ []) (flat segs),
  In-append x seg (n ∷ []),
  In-append x seg (flat segs),
)
In-flat-push_at (seg ∷ segs) (suc i) n x y h = ground (
  arith,
  In-flat-push_at segs i n x y h,
  In-append x seg (flat segs),
  In-append x seg (flat (push_at segs i n)),
)

pub Distinct-push_at :
    (segs : List (List String)) (i : ℕ) (n y : String)
    → Holds segs i y
    → Distinct (flat segs)
    → ¬ In n (flat segs)
    → Distinct (flat (push_at segs i n))
unfolding push_at
Distinct-push_at [] i n y h d out = d
Distinct-push_at (seg ∷ segs) zero n y h d out =
    let (a, b, apart) = Distinct-split seg (flat segs) d in
    Distinct-append (seg ++ n ∷ []) (flat segs)
      (Distinct-snoc seg n a (λ m. out ((In-append n seg (flat segs)).1 (inl m)))) b
      (λ x m o. elim ((In-append x seg (n ∷ [])).0 o) [
        | inl o ↦ apart x m o
        | inr (inl e) ↦
            out ((In-append n seg (flat segs)).1 (inr (subst (λ z. In z (flat segs)) (sym e) m)))
        | inr (inr never) ↦ never
      ])
Distinct-push_at (seg ∷ segs) (suc i) n y h d out =
    let (a, b, apart) = Distinct-split seg (flat segs) d in
    Distinct-append seg (flat (push_at segs i n)) a
      (Distinct-push_at segs i n y h b (λ m. out ((In-append n seg (flat segs)).1 (inr m))))
      (λ x m o. elim ((In-flat-push_at segs i n x y h).0 m) [
        | inl old ↦ apart x old o
        | inr e ↦ out ((In-append n seg (flat segs)).1 (inl (subst (λ z. In z seg) (sym e) o)))
      ])

pub Holds-push_at :
    (segs : List (List String)) (i j : ℕ) (n x : String)
    → Holds segs j x
    → Holds (push_at segs i n) j x
unfolding push_at
Holds-push_at [] i j n x h = h
Holds-push_at (seg ∷ segs) zero zero n x (s, e, m) = (
  seg ++ n ∷ [],
  refl,
  (In-append x seg (n ∷ [])).1 (inl (subst (In x) (sym (some-injective seg s e)) m)),
)
Holds-push_at (seg ∷ segs) zero (suc j) n x h = h
Holds-push_at (seg ∷ segs) (suc i) zero n x h = h
Holds-push_at (seg ∷ segs) (suc i) (suc j) n x h = Holds-push_at segs i j n x h

pub Holds-pushed :
    (segs : List (List String)) (i : ℕ) (n x : String)
    → Holds segs i x
    → Holds (push_at segs i n) i n
unfolding push_at
Holds-pushed [] i n x (s, e, m) = cc
Holds-pushed (seg ∷ segs) zero n x h =
    (seg ++ n ∷ [], refl, (In-append n seg (n ∷ [])).1 (inr (inl refl)))
Holds-pushed (seg ∷ segs) (suc i) n x h = Holds-pushed segs i n x h

module _ (Joined : String → String → Type 0) where
  -- Stages of which each continues the one before it, and was not the end of the segment since.
  abbrev pub IsChain : List String → List String → Type 0
  IsChain consumed [] = ⊥
  IsChain consumed (x ∷ []) = Unit
  IsChain consumed (x ∷ y ∷ rest) = Joined x y × In x consumed × IsChain consumed (y ∷ rest)

  IsChain-mono :
      (c c' seg : List String) → ((x : String) → In x c → In x c') → IsChain c seg → IsChain c' seg
  IsChain-mono c c' [] sub h = h
  IsChain-mono c c' (x ∷ []) sub h = h
  IsChain-mono c c' (x ∷ y ∷ rest) sub (j, m, h) = (j, sub x m, IsChain-mono c c' (y ∷ rest) sub h)

  -- A stage that nothing continues yet is the end of its segment, so another can continue it.
  IsChain-snoc :
      (c seg : List String) (u n : String)
      → IsChain c seg
      → In u seg
      → ¬ In u c
      → Joined u n
      → IsChain (set_add c u) (seg ++ n ∷ [])
  IsChain-snoc c [] u n h m out j = absurd m
  IsChain-snoc c (x ∷ []) u n h (inl e) out j =
      (subst (λ z. Joined z n) (sym e) j, (set_add_iff c u x).1 (inr (sym e)), tt)
  IsChain-snoc c (x ∷ []) u n h (inr m) out j = absurd m
  IsChain-snoc c (x ∷ y ∷ rest) u n h (inl e) out j = absurd (out (subst (λ z. In z c) e h.1))
  IsChain-snoc c (x ∷ y ∷ rest) u n h (inr m) out j =
      (h.0, (set_add_iff c u x).1 (inl h.1), IsChain-snoc c (y ∷ rest) u n h.2 m out j)

  All-IsChain-mono :
      (c c' : List String) (segs : List (List String))
      → ((x : String) → In x c → In x c')
      → All (IsChain c) segs
      → All (IsChain c') segs
  All-IsChain-mono c c' [] sub h = tt
  All-IsChain-mono c c' (seg ∷ segs) sub h =
      (IsChain-mono c c' seg sub h.0, All-IsChain-mono c c' segs sub h.1)

  pub All-IsChain-push_at :
      (c : List String) (segs : List (List String)) (i : ℕ) (u n : String)
      → All (IsChain c) segs
      → Holds segs i u
      → ¬ In u c
      → Joined u n
      → All (IsChain (set_add c u)) (push_at segs i n)
  unfolding push_at
  All-IsChain-push_at c [] i u n h (s, e, m) out j = tt
  All-IsChain-push_at c (seg ∷ segs) zero u n h (s, e, m) out j = (
    IsChain-snoc c seg u n h.0 (subst (In u) (sym (some-injective seg s e)) m) out j,
    All-IsChain-mono c (set_add c u) segs (λ x o. (set_add_iff c u x).1 (inl o)) h.1,
  )
  All-IsChain-push_at c (seg ∷ segs) (suc i) u n h m out j = (
    IsChain-mono c (set_add c u) seg (λ x o. (set_add_iff c u x).1 (inl o)) h.0,
    All-IsChain-push_at c segs i u n h.1 m out j,
  )

  pub All-IsChain-open :
      (c : List String) (segs : List (List String)) (n : String)
      → All (IsChain c) segs
      → All (IsChain c) (segs ++ (n ∷ []) ∷ [])
  All-IsChain-open c [] n h = (tt, tt)
  All-IsChain-open c (seg ∷ segs) n h = (h.0, All-IsChain-open c segs n h.1)

pub flat-open :
    (segs : List (List String)) (n : String) → flat (segs ++ (n ∷ []) ∷ []) ≡ flat segs ++ n ∷ []
flat-open [] n = refl
flat-open (seg ∷ segs) n =
    ap (λ l. seg ++ l) (flat-open segs n) ∙ sym (append_assoc seg (flat segs) (n ∷ []))

pub Holds-open :
    (segs : List (List String)) (j : ℕ) (n x : String)
    → Holds segs j x
    → Holds (segs ++ (n ∷ []) ∷ []) j x
Holds-open [] j n x (s, e, m) = cc
Holds-open (seg ∷ segs) zero n x h = h
Holds-open (seg ∷ segs) (suc j) n x h = Holds-open segs j n x h

pub Holds-opened :
    (segs : List (List String)) (n : String) → Holds (segs ++ (n ∷ []) ∷ []) (length segs) n
Holds-opened [] n = (n ∷ [], refl, inl refl)
Holds-opened (seg ∷ segs) n = Holds-opened segs n
