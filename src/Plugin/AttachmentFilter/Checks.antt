-- ===== src/Plugin/AttachmentFilter/Checks.antt =====
-- When the attachment filter lets a message pass.
use postbox.Common.{
  ℕ, ◌+◌, ◌%◌, ◌^◌, ◌≤◌, ◌<◌, ◌≡◌, Bool, true, false, ◌&&◌, not, List, [], ◌∷◌, nat_Eq, ltb, leb,
  Result, ok, err, ◌>>=◌, length, all, if◌then◌else◌, arith, refl, Bool-cases, inl, inr,
}
use postbox.Plugin.AttachmentFilter.{
  MimeLib, Attachment, FilterConfig, Rejection, member, normalise_media_type, to_set, check_one,
  check_each, check_total, before_send,
}

abbrev pub passes : {A : Type 0} → Result Rejection A → Bool
passes (ok u) = true
passes (err e) = false

-- The sum of the sizes that are not negative, as a number.
abbrev pub total_size : List Attachment → ℕ
total_size [] = 0
total_size (a ∷ rest) = if ltb a.size (2 ^ 63) then a.size + total_size rest else total_size rest

module _ (lib : MimeLib) (cfg : FilterConfig) where
  -- What is asked of one attachment.
  abbrev pub admissible : Attachment → Bool
  admissible a =
      let mtype = normalise_media_type lib a.content_type in
      not (leb (2 ^ 63) a.size)
      && not (ltb 0 cfg.max_single_bytes && ltb cfg.max_single_bytes a.size)
      && not (member mtype (to_set lib cfg.blocked_mimes))
      && not (ltb 0 (length cfg.allowed_mimes) && not (member mtype (to_set lib cfg.allowed_mimes)))

  check_one_lem :
      (a : Attachment) (total : ℕ)
      → (admissible a ≡ true → check_one lib cfg a total ≡ ok ((total + a.size) % 2 ^ 64))
        × (admissible a ≡ false → passes (check_one lib cfg a total) ≡ false)
  unfolding check_one
  check_one_lem a total = (λ h. ground arith, λ h. ground arith)

  -- The loop accepts admissible attachments only, and its total wraps.
  check_each-ok :
      (atts : List Attachment) (total : ℕ)
      → total < 2 ^ 64
      → all admissible atts ≡ true
      → check_each lib cfg atts total ≡ ok ((total + total_size atts) % 2 ^ 64)
  unfolding check_each
  check_each-ok [] total t h = let e : (total + 0) % 2 ^ 64 ≡ total = omega arith in rw e
  check_each-ok (a ∷ rest) total t h =
      let next = (total + a.size) % 2 ^ 64 in
      let counted : total_size (a ∷ rest) ≡ a.size + total_size rest = ground arith in
      let e : (next + total_size rest) % 2 ^ 64 ≡ (total + (a.size + total_size rest)) % 2 ^ 64 =
        omega arith in
      rw ((check_one_lem a total).0 (ground arith))
        (rw (check_each-ok rest next (omega arith) (ground arith)) (rw counted (rw e)))

  check_each-err :
      (atts : List Attachment) (total : ℕ)
      → all admissible atts ≡ false
      → passes (check_each lib cfg atts total) ≡ false
  unfolding check_each
  check_each-err [] total h = cc
  check_each-err (a ∷ rest) total h = elim (Bool-cases (admissible a)) [
    | inl e ↦
        rw ((check_one_lem a total).0 e)
          (check_each-err rest ((total + a.size) % 2 ^ 64) (ground arith))
    | inr e ↦ stops (check_one lib cfg a total) ((check_one_lem a total).1 e)
  ]
    where
      stops :
          (r : Result Rejection ℕ)
          → passes r ≡ false
          → passes (r >>= λ t. check_each lib cfg rest t) ≡ false
      stops (ok t) h = cc
      stops (err e) h = refl

  -- The limit on the number of attachments.
  abbrev pub few : List Attachment → Bool
  few atts = not (ltb 0 cfg.max_count && ltb cfg.max_count (length atts))

  -- The limit on the sum of the sizes.
  abbrev pub within_total : List Attachment → Bool
  within_total atts = not (ltb 0 cfg.max_total_bytes && ltb cfg.max_total_bytes (total_size atts))

  -- Where the sizes that are not negative have a sum that is an int64, a message passes exactly when
  -- its attachments are few enough, each is admissible, which a negative size is not, and their
  -- sizes together are within the limit.
  pub attachments-before_send :
      (atts : List Attachment)
      → total_size atts < 2 ^ 63
      → passes (before_send lib cfg atts) ≡ (few atts && all admissible atts && within_total atts)
  unfolding before_send check_total
  attachments-before_send atts h = elim (Bool-cases (all admissible atts)) [
    | inl e ↦
        let w : total_size atts % 2 ^ 64 ≡ total_size atts = omega arith in
        ground (arith, check_each-ok atts 0 (omega arith) e, w)
    | inr e ↦ ground (arith, check_each-err atts 0 e)
  ]

  -- When the total wraps to a negative int64, admissible attachments that are few enough pass
  -- whatever the limit on the sum of the sizes is.
  pub passes_overflow :
      (atts : List Attachment)
      → few atts ≡ true
      → all admissible atts ≡ true
      → 2 ^ 63 ≤ total_size atts
      → total_size atts < 2 ^ 64
      → passes (before_send lib cfg atts) ≡ true
  unfolding before_send check_total
  passes_overflow atts f e low high =
      let w : (0 + total_size atts) % 2 ^ 64 ≡ total_size atts = omega arith in
      ground (arith, check_each-ok atts 0 (omega arith) e, w)
