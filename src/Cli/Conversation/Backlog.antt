-- ===== src/Cli/Conversation/Backlog.antt =====
-- The limits of the backlog (ricochet-cli/conversation.go).
use ricochet_go.Common.{
  ℕ, zero, suc, ◌+◌, ◌-◌, ◌<◌, ◌≤◌, ◌≡◌, ◌⊎◌, inl, inr, refl, ap, ◌∙◌, Bool, true, false, none,
  some, List, [], ◌∷◌, ◌++◌, if◌then◌else◌, length, take, drop, get_elem?, ltb, leb, All, arith,
  Bool-cases, get_elem?-drop, drop-drop, length-drop, ltb→lt, leb→le, min,
}
use ricochet_go.Rpc.{Message}
use ricochet_go.Cli.Conversation.{
  Conversation, backlog_soft_limit, backlog_hard_limit, backlog_context_num, is_unread,
  count_unread, keep_index, trim_hard, trim_soft, trim_backlog, store_message, add_message,
  validate_message,
}

-- What the search has found: the first messages of the rest, up to the index that is kept, are not
-- unread, and either what is kept is within the soft limit or its first four messages have an unread one.
record Kept (n i : ℕ) (ms : List Message) (k : ℕ) : Type 0 where
  below : k + backlog_soft_limit ≤ n
  no_unread : All (λ m. is_unread m ≡ false) (take (k - i) ms)
  reason :
      (n - k ≤ backlog_soft_limit)
      ⊎ ((p : ℕ) × (m : Message) × (get_elem? ms p ≡ some m)
          × (is_unread m ≡ true)
          × (i + p ≤ k + backlog_context_num)
          × (k ≤ i + p))

Kept-later :
    (n i : ℕ) (m : Message) (ms : List Message) (k : ℕ)
    → is_unread m ≡ false
    → Kept n (i + 1) ms k
    → Kept n i (m ∷ ms) k
Kept-later n i m ms k h r = record {
  below = r.below;
  no_unread = elim (Bool-cases (ltb i k)) [
    | inl l ↦
        let one : k - i ≡ suc (k - (i + 1)) = omega (arith, ltb→lt i k l) in rw one (h, r.no_unread)
    | inr l ↦ let nothing : k - i ≡ 0 = ground arith in rw nothing tt
  ];
  reason = elim r.reason [
    | inl s ↦ inl s
    | inr (p, m', at, u, lo, hi) ↦ inr (suc p, m', at, u, omega arith, omega arith)
  ];
}

keep_index-Kept :
    (n i : ℕ) (ms : List Message)
    → i + length ms ≡ n
    → backlog_soft_limit ≤ length ms
    → Kept n i ms (keep_index n i ms)
unfolding keep_index
keep_index-Kept n i [] e h = absurd (omega arith)
keep_index-Kept n i (m ∷ ms) e h = elim (Bool-cases (is_unread m)) [
  | inl u ↦
      let nothing : i - backlog_context_num - i ≡ 0 = omega arith in
      rw u (record {
        below = omega arith;
        no_unread = rw nothing tt;
        reason = inr (0, m, refl, u, omega arith, omega arith);
      })
  | inr u ↦ elim (Bool-cases (leb (n - i) backlog_soft_limit)) [
    | inl l ↦
        let nothing : i - i ≡ 0 = omega arith in
        rw (u, l)
          (record { below = omega arith; no_unread = rw nothing tt; reason = inl (leb→le _ _ l) })
    | inr l ↦
        let long : backlog_soft_limit < n - i = ground arith in
        rw (u, l)
          (Kept-later n i m ms _ u (keep_index-Kept n (i + 1) ms (omega arith) (omega arith)))
  ]
]

count_unread-drop :
    (k : ℕ) (ms : List Message)
    → All (λ m. is_unread m ≡ false) (take k ms)
    → count_unread (drop k ms) ≡ count_unread ms
unfolding count_unread
count_unread-drop zero ms h = refl
count_unread-drop (suc k) [] h = refl
count_unread-drop (suc k) (m ∷ ms) (hm, hs) = ground (arith, hm, count_unread-drop k ms hs)

-- The backlog after trimming, against the one before.
pub record Trimmed (ms ms' : List Message) : Type 0 where
  pub cut : ℕ
  pub suffix : ms' ≡ drop cut ms
  pub hard : length ms' ≤ backlog_hard_limit
  pub soft :
      (length ms' ≤ backlog_soft_limit)
      ⊎ ((p : ℕ) × (m : Message) × (get_elem? ms' p ≡ some m)
          × (is_unread m ≡ true)
          × (p ≤ backlog_context_num))
  pub newest : min (length ms) backlog_soft_limit ≤ length ms'
  pub unread_kept : count_unread ms' ≡ count_unread (drop (length ms - backlog_hard_limit) ms)

trim_hard_messages :
    (c : Conversation)
    → (trim_hard c).messages ≡ drop (length c.messages - backlog_hard_limit) c.messages
unfolding trim_hard
trim_hard_messages c = elim (Bool-cases (ltb backlog_hard_limit (length c.messages))) [
  | inl l ↦ rw l
  | inr l ↦
      let nothing : length c.messages - backlog_hard_limit ≡ 0 = ground arith in rw (l, nothing)
]

soft_index : (ms : List Message) → ℕ
soft_index ms = if leb (length ms) backlog_soft_limit then 0 else keep_index (length ms) 0 ms

trim_soft_messages :
    (c : Conversation) → (trim_soft c).messages ≡ drop (soft_index c.messages) c.messages
unfolding trim_soft soft_index
trim_soft_messages c = ground arith

-- The soft limit alone.
record SoftTrimmed (ms : List Message) (k : ℕ) : Type 0 where
  newest : min (length ms) backlog_soft_limit + k ≤ length ms
  no_unread : All (λ m. is_unread m ≡ false) (take k ms)
  soft :
      (length (drop k ms) ≤ backlog_soft_limit)
      ⊎ ((p : ℕ) × (m : Message) × (get_elem? (drop k ms) p ≡ some m)
          × (is_unread m ≡ true)
          × (p ≤ backlog_context_num))

soft_index-SoftTrimmed : (ms : List Message) → SoftTrimmed ms (soft_index ms)
unfolding soft_index
soft_index-SoftTrimmed ms = elim (Bool-cases (leb (length ms) backlog_soft_limit)) [
  | inl l ↦ rw l (record { newest = omega arith; no_unread = tt; soft = inl (leb→le _ _ l) })
  | inr l ↦
      let long : backlog_soft_limit < length ms = ground arith in
      let k = keep_index (length ms) 0 ms in
      let r : Kept (length ms) 0 ms k =
        keep_index-Kept (length ms) 0 ms (omega arith) (omega arith) in
      let whole : k - 0 ≡ k = omega arith in
      rw l (record {
        newest = omega (arith, r.below);
        no_unread = rw whole at r.no_unread;
        soft = elim r.reason [
          | inl s ↦ inl (omega (arith, length-drop k ms))
          | inr (p, m, at, u, lo, hi) ↦
              let there : k + (p - k) ≡ p = omega arith in
              inr (
                p - k,
                m,
                get_elem?-drop k (p - k) ms ∙ ap (get_elem? ms) there ∙ at,
                u,
                omega arith,
              )
        ];
      })
]

trim_backlog-Trimmed : (c : Conversation) → Trimmed c.messages (trim_backlog c).messages
unfolding trim_backlog
trim_backlog-Trimmed c =
    let hard = drop (length c.messages - backlog_hard_limit) c.messages in
    let k = soft_index hard in
    let s = soft_index-SoftTrimmed hard in
    let e : (trim_soft (trim_hard c)).messages ≡ drop k hard =
      trim_soft_messages (trim_hard c)
      ∙ ap (λ ms. drop (soft_index ms) ms) (trim_hard_messages c) in
    let n = length-drop (length c.messages - backlog_hard_limit) c.messages in
    let n' = length-drop k hard in
    rw e (record {
      cut = length c.messages - backlog_hard_limit + k;
      suffix = drop-drop k (length c.messages - backlog_hard_limit) c.messages;
      hard = omega (arith, n, n');
      soft = s.soft;
      newest = omega (arith, n, n', s.newest);
      unread_kept = count_unread-drop k hard s.no_unread;
    })

-- Adding a valid message to the backlog trims it to a suffix that ends in the new message: at most
-- 200 messages are kept, at least the newest 100 are (or all, if there are fewer), no unread message
-- among the newest 200 is lost, and more than 100 are kept only if one of the first four is unread.
pub add_message-Trimmed :
    (c : Conversation) (msg : Message) (populating : Bool)
    → validate_message c msg ≡ none
    → Trimmed (c.messages ++ msg ∷ []) (add_message c msg populating).0.messages
unfolding add_message store_message
add_message-Trimmed c msg populating valid = rw (valid, add_message) (trim_backlog-Trimmed _)

-- The soft limit drops no unread message.
pub trim_soft_unread :
    (c : Conversation) → count_unread (trim_soft c).messages ≡ count_unread c.messages
trim_soft_unread c =
    ap count_unread (trim_soft_messages c)
    ∙ count_unread-drop (soft_index c.messages) c.messages
        (soft_index-SoftTrimmed c.messages).no_unread
