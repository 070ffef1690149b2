-- ===== src/Core/Conversation/Marking.antt =====
-- Acknowledging sent messages and marking received ones as read (core/conversation.go).
use ricochet_go.Common.{
  ℕ, zero, suc, ◌+◌, ◌<◌, ◌≤◌, ◌≡◌, ◌⊎◌, inl, inr, refl, sym, ◌∙◌, ap, Bool, true, false,
  if◌then◌else◌, ◌&&◌, ◌==◌, Option, none, some, List, [], ◌∷◌, ◌++◌, map, length, All, arith,
  Bool-cases, get_elem?, set, get_elem?-lt, get_elem?-some, subst, ℕ_discrete, some_eq,
}
use ricochet_go.Rpc.{
  Message, error, sending, delivered, unread, read, ConversationEvent, status_eq, entity_is_self,
  update,
}
use ricochet_go.Core.Conversation.{
  Conversation, event, find_sending, update_sent_status, mark_read, mark_read_before_message,
}
use ricochet_go.Core.Conversation.Sending.{count_status}

-- A message that an acknowledgement of this identifier can be about.
abbrev pub IsAwaiting : ℕ → Message → Type 0
IsAwaiting id m = (m.status ≡ sending) × (m.identifier ≡ id)

-- The newest message that waits for this acknowledgement, at its index.
pub record Newest (id : ℕ) (ms : List Message) (i : ℕ) (m : Message) : Type 0 where
  pub at : get_elem? ms i ≡ some m
  pub awaiting : IsAwaiting id m
  pub last : (j : ℕ) (m' : Message) → i < j → get_elem? ms j ≡ some m' → ¬ IsAwaiting id m'

abbrev awaits : ℕ → Message → Bool
awaits id m = status_eq m.status sending && m.identifier == id

find_sending_step :
    (id i : ℕ) (ms : List Message) (m : Message)
    → get_elem? ms i ≡ some m
    → find_sending id (suc i) ms ≡ (if awaits id m then some (i, m) else find_sending id i ms)
unfolding find_sending
find_sending_step id i ms m at = rw (at, find_sending) (ground arith)

may_settle : (id : ℕ) (m : Message) → awaits id m ≡ true → IsAwaiting id m
may_settle id m h = ground arith

must_skip : (id : ℕ) (m : Message) → awaits id m ≡ false → ¬ IsAwaiting id m
must_skip id m h w = ground arith

-- The search over the first `n` messages.
abbrev NoneBelow : ℕ → ℕ → List Message → ℕ → Type 0
NoneBelow id i ms n =
    (j : ℕ) (m : Message) → i ≤ j → j < n → get_elem? ms j ≡ some m → ¬ IsAwaiting id m

abbrev Found : ℕ → ℕ → List Message → Option (ℕ × Message) → Type 0
Found id n ms none = NoneBelow id 0 ms n
Found id n ms (some (i, m)) =
    (get_elem? ms i ≡ some m) × IsAwaiting id m × NoneBelow id (suc i) ms n

NoneBelow-suc :
    (id i n : ℕ) (ms : List Message) (m : Message)
    → get_elem? ms n ≡ some m
    → ¬ IsAwaiting id m
    → NoneBelow id i ms n
    → NoneBelow id i ms (suc n)
NoneBelow-suc id i n ms m at w below j m' le lt at' w' = elim (ℕ_discrete j n) [
  | yes e ↦ w (subst (IsAwaiting id) (some_eq m' m (sym at' ∙ ap (get_elem? ms) e ∙ at)) w')
  | no ne ↦ below j m' le (omega arith) at' w'
]

find_sending-Found :
    (id n : ℕ) (ms : List Message) → n ≤ length ms → Found id n ms (find_sending id n ms)
find_sending-Found id zero ms fits = unfold find_sending in λ j m le lt at w. omega arith
find_sending-Found id (suc n) ms fits =
    let (m, at) = get_elem?-some ms n fits in
    let ih = find_sending-Found id n ms (omega arith) in
    rw (find_sending_step id n ms m at) (go m at (awaits id m) refl (find_sending id n ms) ih)
  where
    go :
        (m : Message)
        → get_elem? ms n ≡ some m
        → (b : Bool) → awaits id m ≡ b
        → (r : Option (ℕ × Message)) → Found id n ms r
        → Found id (suc n) ms (if b then some (n, m) else r)
    go m at true e r f = (at, may_settle id m e, λ j m' le lt at' w. omega arith)
    go m at false e none f = NoneBelow-suc id 0 n ms m at (must_skip id m e) f
    go m at false e (some (i, m')) f =
        (f.0, f.1, NoneBelow-suc id (suc i) n ms m at (must_skip id m e) f.2)

-- What an acknowledgement does, on both branches.
abbrev pub Acknowledged : ℕ → Bool → Conversation → Conversation × List ConversationEvent → Type 0
Acknowledged id success c (c', events) =
    (((j : ℕ) (m : Message) → get_elem? c.messages j ≡ some m → ¬ IsAwaiting id m)
      × (c' ≡ c)
      × (events ≡ []))
    ⊎ ((i : ℕ) × (m : Message) × Newest id c.messages i m
        × (let m' = record m { status = if success then delivered else error } in
            (c' ≡ record c { messages = set c.messages i m' }) × (events ≡ event update m' ∷ [])))

-- An acknowledgement settles the newest message that is being sent under its identifier, as delivered
-- or as failed, leaves everything else as it is and publishes that one update; if no message is being sent under the
-- identifier, nothing changes and nothing is published.
pub update_sent_status_newest :
    (id : ℕ) (success : Bool) (c : Conversation)
    → Acknowledged id success c (update_sent_status id success c)
unfolding update_sent_status
update_sent_status_newest id success c =
    go (find_sending id (length c.messages) c.messages)
      (find_sending-Found id (length c.messages) c.messages (omega arith))
  where
    go :
        (r : Option (ℕ × Message))
        → Found id (length c.messages) c.messages r
        → Acknowledged id success c (elim r [
          | none ↦ (c, [])
          | some (i, m) ↦
              let m' = record m { status = if success then delivered else error } in
              (record c { messages = set c.messages i m' }, event update m' ∷ [])
        ])
    go none f = inl (λ j m at. f j m (omega arith) (get_elem?-lt c.messages j m at) at, refl, refl)
    go (some (i, m)) (at, w, later) = inr (
      i,
      m,
      record {
        at = at;
        awaiting = w;
        last = λ j m' lt at'. later j m' lt (get_elem?-lt c.messages j m' at') at';
      },
      (refl, refl),
    )

-- Where the loop of `MarkReadBeforeMessage` ends: a received message with the identifier.
abbrev pub stops : ℕ → Message → Bool
stops id m = m.identifier == id && entity_is_self m.recipient

-- An unread message read, any other message as it is.
abbrev pub as_read : Message → Message
as_read m = record m { status = if status_eq m.status unread then read else m.status }

mark_read_stop :
    (id : ℕ) (m : Message) (rest : List Message)
    → stops id m ≡ true
    → (mark_read id (m ∷ rest)).0 ≡ as_read m ∷ rest
unfolding mark_read
mark_read_stop id m rest h = rw h

mark_read_pass :
    (id : ℕ) (m : Message) (rest : List Message)
    → stops id m ≡ false
    → (mark_read id (m ∷ rest)).0 ≡ as_read m ∷ (mark_read id rest).0
unfolding mark_read
mark_read_pass id m rest h = rw h

-- The messages up to the first received one with the identifier become read where they were unread,
-- and those behind it stay as they are.
pub mark_read_before_message_prefix :
    (id : ℕ) (c : Conversation) (pre rest : List Message) (m : Message)
    → c.messages ≡ pre ++ m ∷ rest
    → All (λ p. stops id p ≡ false) pre
    → stops id m ≡ true
    → (mark_read_before_message id c).0.messages ≡ map as_read pre ++ as_read m ∷ rest
unfolding mark_read_before_message
mark_read_before_message_prefix id c pre rest m e h s = rw e (to_stop pre h)
  where
    to_stop :
        (ps : List Message)
        → All (λ p. stops id p ≡ false) ps
        → (mark_read id (ps ++ m ∷ rest)).0 ≡ map as_read ps ++ as_read m ∷ rest
    to_stop [] _ = mark_read_stop id m rest s
    to_stop (p ∷ ps) (hp, hs) = rw (mark_read_pass id p (ps ++ m ∷ rest) hp, to_stop ps hs)

-- If no received message has the identifier, every unread message becomes read.
pub mark_read_before_message_missing :
    (id : ℕ) (c : Conversation)
    → All (λ p. stops id p ≡ false) c.messages
    → (mark_read_before_message id c).0.messages ≡ map as_read c.messages
unfolding mark_read_before_message
mark_read_before_message_missing id c h = all_read c.messages h
  where
    all_read :
        (ps : List Message)
        → All (λ p. stops id p ≡ false) ps
        → (mark_read id ps).0 ≡ map as_read ps
    all_read [] _ = unfold mark_read in refl
    all_read (p ∷ ps) (hp, hs) = rw (mark_read_pass id p ps hp, all_read ps hs)

mark_read_counts :
    (id : ℕ) (ms : List Message)
    → (count_status unread (mark_read id ms).0 + (mark_read id ms).2 ≡ count_status unread ms)
      × (length (mark_read id ms).1 ≡ (mark_read id ms).2)
unfolding mark_read
mark_read_counts id [] = (omega arith, omega arith)
mark_read_counts id (m ∷ ms) =
    let (ih, ie) = mark_read_counts id ms in
    elim (Bool-cases (stops id m)) [
      | inl e ↦ rw e (ground arith)
      | inr e ↦ rw e (ground (arith, ih, ie))
    ]

-- The number that `MarkReadBeforeMessage` returns is the number of unread messages that became read,
-- and there is one event for each.
pub mark_read_before_message_counts :
    (id : ℕ) (c : Conversation)
    → let (c', events, n) = mark_read_before_message id c in
      (count_status unread c'.messages + n ≡ count_status unread c.messages) × (length events ≡ n)
unfolding mark_read_before_message
mark_read_before_message_counts id c = mark_read_counts id c.messages
