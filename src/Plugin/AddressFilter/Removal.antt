-- ===== src/Plugin/AddressFilter/Removal.antt =====
-- The removal of a rule in memory compacts the backing array in place: what it leaves in the filter,
-- and what a `BeforeSend` sees that holds the old slice of that array while it runs.
use postbox.Common.{
  ℕ, suc, zero, ◌+◌, ◌≤◌, ◌≡◌, String, refl, true, false, List, [], ◌∷◌, ◌++◌, string_Eq, ◌==◌,
  if◌then◌else◌, arith, eq_iff, length, length-append, take, drop, set-append, take-append,
  Bool-cases, inl, inr, All,
}
use mathlib.Core.List.{append_assoc}
use native.Mathlib.Nat.{add-zero, zero-add}
use postbox.Plugin.AddressFilter.{CompiledRule, AddrEntry, compact, compacted, is_blocked}
use postbox.Plugin.AddressFilter.Checks.{hit, is_blocked-hit}

-- The rules with another id, in order.
abbrev pub others : String → List CompiledRule → List CompiledRule
others id [] = []
others id (c ∷ cs) = if c.id == id then others id cs else c ∷ others id cs

-- The array after the loop, from a front part of `n` rules that is done.
compact_lem :
    (id : String) (cs front rest : List CompiledRule)
    → length cs ≤ length rest
    → compact id cs (length front) (front ++ rest) ≡ (
      length front + length (others id cs),
      front ++ (others id cs ++ drop (length (others id cs)) rest),
    )
unfolding compact
compact_lem id [] front rest h = rw add-zero
compact_lem id (c ∷ cs) front [] h = absurd (omega arith)
compact_lem id (c ∷ cs) front (r ∷ rest) h = elim (Bool-cases (c.id == id)) [
  | inl e ↦ rw e (compact_lem id cs front (r ∷ rest) (omega arith))
  | inr e ↦ rw e (
      ground (
        arith,
        compact_lem id cs (front ++ c ∷ []) rest,
        set-append front r rest c,
        append_assoc front (c ∷ []) rest,
        length-append front (c ∷ []),
        append_assoc front (c ∷ []) (others id cs ++ drop (length (others id cs)) rest),
      ))
]

-- A removal leaves exactly the rules with another id, in their order.
pub compacted-others :
    (id : String) (rules : List CompiledRule) → compacted id rules ≡ others id rules
unfolding compacted
compacted-others id rules =
    rw (compact_lem id rules [] rules (omega arith)) (rw zero-add (take-append (others id rules) _))

-- What a `BeforeSend` reads that took its slice before a removal, and that has read `k` rules of it
-- when the removal runs: the old rules up to there, and the compacted array from there on.
unfoldable pub torn_read : String → ℕ → List CompiledRule → List CompiledRule
unfolding compact
torn_read id k rules = take k rules ++ drop k (compact id rules 0 rules).1

All-others :
    (id : String) (cs : List CompiledRule) → All (λ c. (c.id == id) ≡ false) cs → others id cs ≡ cs
All-others id [] h = refl
All-others id (c ∷ cs) h = rw (h.0, All-others id cs h.1)

others_after :
    (a : CompiledRule) (cs : List CompiledRule)
    → All (λ r. (r.id == a.id) ≡ false) cs
    → others a.id (a ∷ cs) ≡ cs
others_after a cs h = rw ((eq_iff a.id a.id).1 refl) (All-others a.id cs h)

torn_read-after :
    (a b c : CompiledRule) (cs : List CompiledRule)
    → All (λ r. (r.id == a.id) ≡ false) (b ∷ c ∷ cs)
    → torn_read a.id 1 (a ∷ b ∷ c ∷ cs) ≡ a ∷ (c ∷ cs) ++ drop (length cs) (c ∷ cs)
unfolding torn_read
torn_read-after a b c cs h =
    let rules = a ∷ b ∷ c ∷ cs in
    rw (compact_lem a.id rules [] rules (omega arith)) (rw (others_after a (b ∷ c ∷ cs) h))

hit-append :
    (xs ys : List CompiledRule) (entry : AddrEntry)
    → hit xs entry ≡ false
    → hit ys entry ≡ false
    → hit (xs ++ ys) entry ≡ false
hit-append [] ys entry h k = k
hit-append (x ∷ xs) ys entry h k = ground (arith, hit-append xs ys entry)

hit-drop :
    (n : ℕ) (xs : List CompiledRule) (entry : AddrEntry)
    → hit xs entry ≡ false
    → hit (drop n xs) entry ≡ false
hit-drop zero xs entry h = h
hit-drop (suc n) [] entry h = h
hit-drop (suc n) (x ∷ xs) entry h = hit-drop n xs entry (ground arith)

-- Where no other rule has the id of rule `a`, and a message is blocked by rule `b` alone, the
-- message is blocked before `a` is removed, and after it; but a check that has read `a` when the
-- removal runs misses `b` and lets the message pass, if rules stand after `b`.
pub torn_read-misses :
    (a b c : CompiledRule) (cs : List CompiledRule) (entry : AddrEntry)
    → All (λ r. (r.id == a.id) ≡ false) (b ∷ c ∷ cs)
    → hit (a ∷ c ∷ cs) entry ≡ false
    → hit (b ∷ []) entry ≡ true
    → let rules = a ∷ b ∷ c ∷ cs in
      (is_blocked entry rules ≡ true)
      × (is_blocked entry (compacted a.id rules) ≡ true)
      × (is_blocked entry (torn_read a.id 1 rules) ≡ false)
torn_read-misses a b c cs entry ids quiet loud =
    let rest = c ∷ cs in
    let after : hit rest entry ≡ false = ground arith in
    let tail =
      hit-append rest (drop (length cs) rest) entry after (hit-drop (length cs) rest entry after) in
    (
      rw (is_blocked-hit entry (a ∷ b ∷ rest)) (ground arith),
      rw
          (
            compacted-others a.id (a ∷ b ∷ rest),
            others_after a (b ∷ rest) ids,
            is_blocked-hit entry (b ∷ rest),
          )
          (ground arith),
      rw (torn_read-after a b c cs ids, is_blocked-hit entry (a ∷ rest ++ drop (length cs) rest))
          (ground (arith, tail)),
    )
