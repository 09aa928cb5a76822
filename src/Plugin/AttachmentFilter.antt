-- ===== src/Plugin/AttachmentFilter.antt =====
-- internal/plugin/attachment_filter.go: limits on the number, the sizes and the media types of
-- attachments. A size is the bit pattern of an int64, so one from `2 ^ 63` on is negative, and the
-- running total wraps at `2 ^ 64`. A limit that is not positive is no limit, written 0.
pub mod Checks
use postbox.Common.{
  ℕ, ◌+◌, ◌%◌, ◌^◌, String, Bool, true, false, ◌&&◌, ◌||◌, not, Option, none, some, List, [], ◌∷◌,
  nat_Eq, string_Eq, ◌==◌, ltb, leb, if◌then◌else◌, Result, ok, err, ◌>>=◌, length, any, map,
  before_first,
}

-- `mime.ParseMediaType` (the media type, or an error), `strings.ToLower` and `strings.TrimSpace`.
pub record MimeLib : Type 0 where
  pub parse_media_type : String → Option String
  pub to_lower : String → String
  pub trim_space : String → String

pub record Attachment : Type 0 where
  pub filename : String
  pub size : ℕ
  pub content_type : String

pub record FilterConfig : Type 0 where
  pub max_count : ℕ
  pub max_total_bytes : ℕ
  pub max_single_bytes : ℕ
  pub allowed_mimes : List String
  pub blocked_mimes : List String

pub data Rejection : Type 0 where
  too_many : ℕ → Rejection
  negative_size too_big blocked_type disallowed_type : String → Rejection
  total_too_big : ℕ → Rejection

abbrev pub member : String → List String → Bool
member x xs = any (λ y. y == x) xs

module _ (lib : MimeLib) where
  unfoldable pub normalise_media_type : String → String
  normalise_media_type ct = if ct == "" then "" else elim (lib.parse_media_type ct) [
    | some mediatype ↦ mediatype
    | none ↦ lib.to_lower (lib.trim_space (before_first b';' ct))
  ]

  -- `toSet`: the keys of the set.
  abbrev pub to_set : List String → List String
  to_set ss = map lib.to_lower ss

  -- The body of the loop; it returns the new total.
  unfoldable pub check_one : FilterConfig → Attachment → ℕ → Result Rejection ℕ
  check_one cfg a total =
      let mtype = normalise_media_type a.content_type in
      if leb (2 ^ 63) a.size
      then err (negative_size a.filename)
      else if ltb 0 cfg.max_single_bytes && ltb cfg.max_single_bytes a.size
      then err (too_big a.filename)
      else if member mtype (to_set cfg.blocked_mimes)
      then err (blocked_type a.filename)
      else if ltb 0 (length cfg.allowed_mimes) && not (member mtype (to_set cfg.allowed_mimes))
      then err (disallowed_type a.filename)
      else ok ((total + a.size) % 2 ^ 64)

  unfoldable pub check_each : FilterConfig → List Attachment → ℕ → Result Rejection ℕ
  check_each cfg [] total = ok total
  check_each cfg (a ∷ rest) total = check_one cfg a total >>= λ t. check_each cfg rest t

  -- The comparison with the limit is signed.
  unfoldable pub check_total : FilterConfig → ℕ → Result Rejection (Unit {0})
  check_total cfg total =
      if ltb 0 cfg.max_total_bytes && ltb total (2 ^ 63) && ltb cfg.max_total_bytes total
      then err (total_too_big total)
      else ok tt

  unfoldable pub before_send : FilterConfig → List Attachment → Result Rejection (Unit {0})
  before_send cfg atts =
      if ltb 0 cfg.max_count && ltb cfg.max_count (length atts)
      then err (too_many (length atts))
      else check_each cfg atts 0 >>= λ total. check_total cfg total
