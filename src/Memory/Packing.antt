-- ===== src/Memory/Packing.antt =====
-- What a pack of context holds: the candidates by priority, each taken where it still fits.
use mathlib.Core.List.{Perm}
use mathlib.Core.List.Perm
use mathlib.Core.Path.{subst}
use agent_mission_control.Prelude.{
  ℕ, ◌+◌, ◌≤◌, ◌<◌, ◌≡◌, inl, inr, true, false, ◌==◌, ltb, leb, Bool-cases, Result-cases, List, [],
  ◌∷◌, All, ok, arith,
}
use agent_mission_control.Domain.Ids.{MissionId, RouteId}
use agent_mission_control.Memory.ContextPack.{
  priority, ContextCandidate, ContextItem, ExcludedContext, ContextPack, u32_max, estimate_tokens,
  comes_first, insert_candidate, sort_candidates, item_of, excluded_of, saturating_add_u32,
  pack_each, validate_each, Digest, digest, build_context_pack,
}

-- The tokens of the items.
abbrev pub total : List ContextItem → ℕ
total [] = 0
total (x ∷ xs) = x.token_estimate + total xs

-- Candidates in the order of their priority.
abbrev pub Ascending : List ContextCandidate → Type 0
Ascending [] = Unit {0}
Ascending (c ∷ cs) = All (λ x. priority c.kind ≤ priority x.kind) cs × Ascending cs

-- The candidates one by one: each is taken where it fits beside what is used, and left out where not.
pub data Packs (max_tokens : ℕ)
    : ℕ → List ContextCandidate → List ContextItem → List ExcludedContext → Type 0 where
  done : {used : ℕ} → Packs max_tokens used [] [] []
  takes :
      {used : ℕ} {cs : List ContextCandidate} {items : List ContextItem}
      {excluded : List ExcludedContext} (c : ContextCandidate)
      → used + estimate_tokens c.content ≤ max_tokens
      → Packs max_tokens (used + estimate_tokens c.content) cs items excluded
      → Packs max_tokens used (c ∷ cs) (item_of c ∷ items) excluded
  leaves :
      {used : ℕ} {cs : List ContextCandidate} {items : List ContextItem}
      {excluded : List ExcludedContext} (c : ContextCandidate)
      → max_tokens < used + estimate_tokens c.content
      → Packs max_tokens used cs items excluded
      → Packs max_tokens used (c ∷ cs) items (excluded_of c ∷ excluded)

pack_each-Packs :
    (max_tokens used : ℕ) (cs : List ContextCandidate)
    → max_tokens < u32_max
    → Packs max_tokens used cs (pack_each max_tokens used cs).0 (pack_each max_tokens used cs).1
unfolding pack_each
pack_each-Packs max_tokens used [] small = done
pack_each-Packs max_tokens used (c ∷ cs) small =
    elim (Bool-cases (leb (saturating_add_u32 used (estimate_tokens c.content)) max_tokens)) [
      | inl fits ↦
          let room : used + estimate_tokens c.content ≤ max_tokens =
            unfold saturating_add_u32 in ground arith in
          let plain : saturating_add_u32 used (estimate_tokens c.content)
              ≡ used + estimate_tokens c.content =
            unfold saturating_add_u32 in ground arith in
          rw fits (
            takes c room (
              subst
                (λ n.
                  Packs max_tokens n cs
                    (pack_each max_tokens (saturating_add_u32 used (estimate_tokens c.content))
                      cs).0
                    (pack_each max_tokens (saturating_add_u32 used (estimate_tokens c.content))
                      cs).1)
                plain
                (pack_each-Packs max_tokens (saturating_add_u32 used (estimate_tokens c.content)) cs
                  small)))
      | inr full ↦ rw full (
          leaves c (unfold saturating_add_u32 in ground arith)
            (pack_each-Packs max_tokens used cs small))
    ]

Packs-total :
    (max_tokens used : ℕ) (cs : List ContextCandidate) (items : List ContextItem)
    (excluded : List ExcludedContext)
    → Packs max_tokens used cs items excluded
    → used ≤ max_tokens
    → used + total items ≤ max_tokens
unfolding item_of
Packs-total max_tokens used _ _ _ done room = omega (arith, room)
Packs-total max_tokens used _ _ _
      (takes {cs = cs} {items = items} {excluded = excluded} c fits rest) room =
    let later =
      Packs-total max_tokens (used + estimate_tokens c.content) cs items excluded rest fits in
    omega (arith, later)
Packs-total max_tokens used _ _ _
      (leaves {cs = cs} {items = items} {excluded = excluded} c full rest) room =
    Packs-total max_tokens used cs items excluded rest room

insert_candidate-Perm :
    (c : ContextCandidate) (cs : List ContextCandidate) → Perm (c ∷ cs) (insert_candidate c cs)
unfolding insert_candidate
insert_candidate-Perm c [] = Perm.refl (c ∷ [])
insert_candidate-Perm c (x ∷ xs) = elim (Bool-cases (comes_first c x)) [
  | inl first ↦ rw first (Perm.refl (c ∷ x ∷ xs))
  | inr later ↦ rw later (Perm.trans (Perm.swap x c xs) (Perm.cons x (insert_candidate-Perm c xs)))
]

sort_candidates-Perm : (cs : List ContextCandidate) → Perm cs (sort_candidates cs)
unfolding sort_candidates
sort_candidates-Perm [] = Perm.refl []
sort_candidates-Perm (c ∷ cs) =
    Perm.trans (Perm.cons c (sort_candidates-Perm cs))
      (insert_candidate-Perm c (sort_candidates cs))

comes_first-le :
    (a b : ContextCandidate) → comes_first a b ≡ true → priority a.kind ≤ priority b.kind
unfolding comes_first
comes_first-le a b first = elim (Bool-cases (ltb (priority b.kind) (priority a.kind))) [
  | inl above ↦ ground arith
  | inr below ↦ ground arith
]

comes_later-le :
    (a b : ContextCandidate) → comes_first a b ≡ false → priority b.kind ≤ priority a.kind
unfolding comes_first
comes_later-le a b later = elim (Bool-cases (ltb (priority a.kind) (priority b.kind))) [
  | inl above ↦ absurd (ground arith)
  | inr below ↦ ground arith
]

-- A bound of the priorities, past an insertion, and lowered.
All-insert_candidate :
    (n : ℕ) (c : ContextCandidate) (cs : List ContextCandidate)
    → n ≤ priority c.kind
    → All (λ x. n ≤ priority x.kind) cs
    → All (λ x. n ≤ priority x.kind) (insert_candidate c cs)
unfolding insert_candidate
All-insert_candidate n c [] low v = (low, tt)
All-insert_candidate n c (x ∷ xs) low v = elim (Bool-cases (comes_first c x)) [
  | inl first ↦ rw first (low, v)
  | inr later ↦ rw later (v.0, All-insert_candidate n c xs low v.1)
]

All-lower :
    (n m : ℕ) (cs : List ContextCandidate)
    → n ≤ m
    → All (λ x. m ≤ priority x.kind) cs
    → All (λ x. n ≤ priority x.kind) cs
All-lower n m [] low v = tt
All-lower n m (x ∷ xs) low v =
    let first = v.0 in (omega (arith, low, first), All-lower n m xs low v.1)

insert_candidate-Ascending :
    (c : ContextCandidate) (cs : List ContextCandidate)
    → Ascending cs
    → Ascending (insert_candidate c cs)
unfolding insert_candidate
insert_candidate-Ascending c [] v = (tt, tt)
insert_candidate-Ascending c (x ∷ xs) v = elim (Bool-cases (comes_first c x)) [
  | inl first ↦
      let low = comes_first-le c x first in
      rw first ((low, All-lower (priority c.kind) (priority x.kind) xs low v.0), v)
  | inr later ↦ rw later (
    All-insert_candidate (priority x.kind) c xs (comes_later-le c x later) v.0,
    insert_candidate-Ascending c xs v.1,
  )
]

sort_candidates-Ascending : (cs : List ContextCandidate) → Ascending (sort_candidates cs)
unfolding sort_candidates
sort_candidates-Ascending [] = tt
sort_candidates-Ascending (c ∷ cs) =
    insert_candidate-Ascending c (sort_candidates cs) (sort_candidates-Ascending cs)

module _ (d : Digest) where
  build_context_pack-packed :
      (m : MissionId) (route : RouteId) (max_tokens : ℕ) (cs : List ContextCandidate)
      (p : ContextPack)
      → build_context_pack d m route max_tokens cs ≡ ok p
      → (p.items ≡ (pack_each max_tokens 0 (sort_candidates cs)).0)
        × (p.excluded ≡ (pack_each max_tokens 0 (sort_candidates cs)).1)
  unfolding build_context_pack
  build_context_pack-packed m route max_tokens cs p built = elim (Bool-cases (max_tokens == 0)) [
    | inl zero ↦ absurd (ground arith)
    | inr some_room ↦ elim (Result-cases (validate_each cs)) [
      | inr (x, invalid) ↦ absurd (ground arith)
      | inl (u, valid) ↦
          elim (Result-cases (
            digest d m route max_tokens (pack_each max_tokens 0 (sort_candidates cs)).0
              (pack_each max_tokens 0 (sort_candidates cs)).1)) [
                | inr (x, unhashed) ↦ absurd (ground arith)
                | inl (hash, hashed) ↦ ground arith
              ]
    ]
  ]

  -- Under a budget below the greatest u32, a pack takes the candidates in the order of their priority, each
  -- where it still fits and no other, and names each of the others as excluded; its tokens stay within
  -- the budget.
  pub build_context_pack_lem :
      (m : MissionId) (route : RouteId) (max_tokens : ℕ) (cs : List ContextCandidate)
      (p : ContextPack)
      → max_tokens < u32_max
      → build_context_pack d m route max_tokens cs ≡ ok p
      → ((ordered : List ContextCandidate) × Perm cs ordered
          × Ascending ordered
          × Packs max_tokens 0 ordered p.items p.excluded)
        × (total p.items ≤ max_tokens)
  build_context_pack_lem m route max_tokens cs p small built =
      let made = build_context_pack-packed m route max_tokens cs p built in
      let packs = pack_each-Packs max_tokens 0 (sort_candidates cs) small in
      let packed : Packs max_tokens 0 (sort_candidates cs) p.items p.excluded =
        rw (made.0, made.1) packs in
      let kept =
        Packs-total max_tokens 0 (sort_candidates cs) p.items p.excluded packed (omega arith) in
      (
        (sort_candidates cs, sort_candidates-Perm cs, sort_candidates-Ascending cs, packed),
        omega (arith, kept),
      )
