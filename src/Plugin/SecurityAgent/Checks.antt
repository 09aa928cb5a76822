-- ===== src/Plugin/SecurityAgent/Checks.antt =====
-- When the agent lets a message pass.
use Prim.Native.String.{len}
use postbox.Common.{
  ℕ, String, Bool, true, false, ◌&&◌, ◌||◌, not, Option, none, some, List, [], ◌∷◌, ◌≡◌, refl, ap,
  ◌∙◌, ◌||◌, nat_Eq, string_Eq, cons_full, ◌==◌, ltb, arith, select, before_first, Bool-cases, inl,
  inr, all, any, length,
}
use postbox.Common.Map.{Map, get}
use postbox.Plugin.SecurityAgent.{
  AgentConfig, Draft, Rejection, SenderEntry, blocked_set, contains_newline, member, check_headers,
  check_filenames, check_content, before_send, take_token,
}
use postbox.Plugin.SecurityAgent.Buckets.{
  Happening, happen_all, bucket, own_bucket, granted, get-happen_all,
}
use postbox.Plugin.SecurityAgent.Extensions.{dot_segments, last_or, blocked_extension_lem}

abbrev pub passes : Option Rejection → Bool
passes none = true
passes (some r) = false

-- No character of the header ends a line.
abbrev pub clean : String × String → Bool
clean (k, v) = not (contains_newline k) && not (contains_newline v)

-- No segment of the name is a blocked extension.
abbrev pub harmless : (String → String) → List String → String → Bool
harmless to_lower blocked name =
    not (any (λ ext. member ext blocked) (dot_segments (to_lower name)))

passes-check_headers : (hs : Map String String) → passes (check_headers hs) ≡ all clean hs
unfolding check_headers
passes-check_headers [] = refl
passes-check_headers ((k, v) ∷ hs) = ground (arith, passes-check_headers hs)

last_or-empty :
    (p : String → Bool) (d : String) (xs : List String)
    → all (λ x. not (x == "")) xs ≡ true
    → (last_or d (select p xs) == "") ≡ (not (any p xs) && d == "")
last_or-empty p d [] h = ground arith
last_or-empty p d (x ∷ xs) h = elim (Bool-cases (p x)) [
  | inl e ↦ rw e (ground (arith, last_or-empty p x xs))
  | inr e ↦ rw e (ground (arith, last_or-empty p d xs))
]

dot_segments_full : (s : String) → all (λ x. not (x == "")) (dot_segments s) ≡ true
unfolding dot_segments
dot_segments_full String.[] = refl
dot_segments_full (String.◌∷◌ c s) =
    ground (arith, dot_segments_full s, cons_full c (before_first b'.' s))

passes-check_filenames :
    (to_lower : String → String) (blocked names : List String)
    → passes (check_filenames to_lower blocked names) ≡ all (harmless to_lower blocked) names
unfolding check_filenames
passes-check_filenames to_lower blocked [] = refl
passes-check_filenames to_lower blocked (name ∷ names) = ground (
  arith,
  blocked_extension_lem blocked (to_lower name),
  passes-check_filenames to_lower blocked names,
  last_or-empty (λ ext. member ext blocked) "" (dot_segments (to_lower name))
      (dot_segments_full (to_lower name)),
)

-- The recipients are few enough and the body is short enough.
abbrev pub small : AgentConfig → Draft → Bool
small cfg d =
    not (ltb 0 cfg.max_recipients && ltb cfg.max_recipients (length d.recipient_ids))
    && not (ltb 0 cfg.max_body_bytes && ltb cfg.max_body_bytes (len d.body))

limited-before_send :
    {Bucket : Type 0} (to_lower : String → String) (allow : ℕ → Bucket → Bucket × Bool)
    (full : Bucket) (cfg : AgentConfig) (now : ℕ) (d : Draft) (m : Map String (SenderEntry Bucket))
    (token : Bool)
    → ((cfg.rate_per_sender == 0) ≡ false → (take_token allow full now d.sender_id m).1 ≡ token)
    → passes (before_send to_lower allow full cfg now d m).1 ≡ (
        (cfg.rate_per_sender == 0 || token)
        && small cfg d
        && all clean d.headers
        && all (harmless to_lower (blocked_set to_lower cfg)) d.filenames)
unfolding before_send check_content
limited-before_send to_lower allow full cfg now d m token h = ground (
  arith,
  h,
  passes-check_headers d.headers,
  passes-check_filenames to_lower (blocked_set to_lower cfg) d.filenames,
)

-- After any history of messages, of any senders, and of evictions, from the start of the agent: a
-- message passes exactly when its sender gets a token, where senders are limited, it is small
-- enough, no header holds a line break, and no segment of an attachment's name is a blocked
-- extension. The token is that of the sender's own bucket: one that was full at the start, or when
-- an eviction last dropped it for lack of use, and from which only this sender's messages have taken
-- tokens since, each at its time.
pub agent-before_send :
    {Bucket : Type 0} (to_lower : String → String) (allow : ℕ → Bucket → Bucket × Bool)
    (full : Bucket) (cfg : AgentConfig) (now : ℕ) (d : Draft) (hs : List Happening)
    → passes
        (before_send to_lower allow full cfg now d (happen_all to_lower allow full cfg hs [])).1
      ≡ ((cfg.rate_per_sender == 0
            || (allow now (
                bucket to_lower allow full cfg
                  (own_bucket to_lower allow full cfg d.sender_id hs none))).1)
          && small cfg d
          && all clean d.headers
          && all (harmless to_lower (blocked_set to_lower cfg)) d.filenames)
unfolding get
agent-before_send {Bucket = Bucket} to_lower allow full cfg now d hs =
    let m = happen_all to_lower allow full cfg hs [] in
    let token : Bool =
      (allow now (
        bucket to_lower allow full cfg
          (own_bucket to_lower allow full cfg d.sender_id hs none))).1 in
    limited-before_send to_lower allow full cfg now d m token (λ r.
      granted to_lower allow full cfg now d.sender_id m
      ∙ ap (λ (o : Option (SenderEntry Bucket)). (allow now (bucket to_lower allow full cfg o)).1)
          (get-happen_all to_lower allow full cfg hs d.sender_id [] r tt))
