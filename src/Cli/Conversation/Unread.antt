-- ===== src/Cli/Conversation/Unread.antt =====
-- The count of unread messages (ricochet-cli/conversation.go).
use ricochet_go.Common.{
  ℕ, zero, suc, ◌≡◌, inl, inr, refl, ap, sym, ◌∙◌, Bool, false, some, List, [], ◌∷◌, ◌++◌,
  if◌then◌else◌, length, get_elem?, set, arith, Option-cases,
}
use ricochet_go.Common.Int.{pos, increment}
use ricochet_go.Rpc.{Message}
use ricochet_go.Cli.Conversation.{
  Conversation, is_unread, count_unread, trim_hard, trim_soft, trim_backlog, store_message,
  add_message, update_message, find_same, validate_message,
}
use ricochet_go.Cli.Conversation.Backlog.{trim_soft_unread}

-- The counter says how many messages of the backlog are unread.
abbrev pub IsCounted : Conversation → Type 0
IsCounted c = c.num_unread ≡ pos (count_unread c.messages)

pub count_unread_nothing : count_unread [] ≡ 0
unfolding count_unread
count_unread_nothing = refl

count_unread-append_one :
    (ms : List Message) (m : Message)
    → count_unread (ms ++ m ∷ []) ≡ (if is_unread m then suc (count_unread ms) else count_unread ms)
unfolding count_unread
count_unread-append_one [] m = refl
count_unread-append_one (x ∷ ms) m = ground (arith, count_unread-append_one ms m)

trim_hard-IsCounted : (c : Conversation) → IsCounted c → IsCounted (trim_hard c)
unfolding trim_hard
trim_hard-IsCounted c h = ground arith

trim_soft_num : (c : Conversation) → (trim_soft c).num_unread ≡ c.num_unread
unfolding trim_soft
trim_soft_num c = ground arith

trim_backlog-IsCounted : (c : Conversation) → IsCounted c → IsCounted (trim_backlog c)
unfolding trim_backlog
trim_backlog-IsCounted c h =
    trim_soft_num (trim_hard c)
    ∙ trim_hard-IsCounted c h
    ∙ ap pos (sym (trim_soft_unread (trim_hard c)))

store_message-IsCounted :
    (c : Conversation) (msg : Message) → IsCounted c → IsCounted (store_message c msg)
unfolding store_message
store_message-IsCounted c msg h =
    let c' : Conversation = record c {
      messages = c.messages ++ msg ∷ [];
      num_unread = if is_unread msg then increment c.num_unread else c.num_unread;
    } in
    trim_backlog-IsCounted c' (ground (arith, h, count_unread-append_one c.messages msg))

-- Adding a message, valid or not, keeps the count exact, whatever the trimming drops.
pub add_message-IsCounted :
    (c : Conversation) (msg : Message) (populating : Bool)
    → IsCounted c
    → IsCounted (add_message c msg populating).0
unfolding add_message
add_message-IsCounted c msg populating h = elim (Option-cases (validate_message c msg)) [
  | inl valid ↦ rw (valid, add_message) (store_message-IsCounted c msg h)
  | inr (e, bad) ↦ rw (bad, add_message) h
]

find_same_at :
    (updated : Message) (n : ℕ) (ms : List Message) (i : ℕ) (m : Message)
    → find_same updated n ms ≡ some (i, m)
    → get_elem? ms i ≡ some m
unfolding find_same
find_same_at updated zero ms i m h = cc
find_same_at updated (suc n) ms i m h = ground (arith, find_same_at updated n ms i m)

count_unread-set :
    (ms : List Message) (i : ℕ) (m m' : Message)
    → get_elem? ms i ≡ some m
    → is_unread m' ≡ false
    → count_unread ms
      ≡ (if is_unread m then suc (count_unread (set ms i m')) else count_unread (set ms i m'))
unfolding count_unread
count_unread-set [] i m m' h r = cc
count_unread-set (x ∷ ms) zero m m' h r = ground arith
count_unread-set (x ∷ ms) (suc i) m m' h r = ground (arith, count_unread-set ms i m m' h r)

-- An update keeps the count exact if it does not make a message unread.
pub update_message-IsCounted :
    (c : Conversation) (updated : Message)
    → is_unread updated ≡ false
    → IsCounted c
    → IsCounted (update_message c updated)
unfolding update_message
update_message-IsCounted c updated r h = elim (Option-cases (validate_message c updated)) [
  | inr (e, bad) ↦ rw (bad, update_message) h
  | inl valid ↦ elim (Option-cases (find_same updated (length c.messages) c.messages)) [
    | inl missing ↦ rw (valid, update_message, missing) h
    | inr ((i, m), found) ↦
        let at = find_same_at updated (length c.messages) c.messages i m found in
        let n = count_unread-set c.messages i m updated at r in
        rw (valid, update_message, found) (ground (arith, h, n, r))
  ]
]
