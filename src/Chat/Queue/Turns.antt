-- ===== src/Chat/Queue/Turns.antt =====
-- How `publish` spreads the messages over the channels.
use miniaibrowse_cpp.Common.{
  ℕ, zero, suc, ◌+◌, ◌-◌, ◌/◌, ◌%◌, ◌^◌, ◌≤◌, ◌<◌, ◌≡◌, ◌≢◌, inl, inr, refl, sym, ap, subst, ◌∙◌,
  List, [], ◌∷◌, ◌++◌, append_assoc, append-nil, some, length, get_elem?, bytes_key, ℕ_key, ◌==◌,
  ==_iff, if◌then◌else◌, Bool-cases, Option-cases, get_elem?-lt, get_elem?-set_self,
  get_elem?-set_ne, arith,
}
use miniaibrowse_cpp.Chat.Queue.{
  Published, MqManager, channels, new_manager, publish_at, publish, publish_all,
}

-- Every `n`-th message from the one whose turn is `i`'s, when the first has number `c`.
unfoldable pub at_turns : ℕ → ℕ → ℕ → List Published → List Published
at_turns n c i [] = []
at_turns n c i (msg ∷ msgs) =
    let rest = at_turns n (c + 1) i msgs in if c % n == i then msg ∷ rest else rest

publish_at_self :
    (i : ℕ) (msg : Published) (pool : List (List Published)) (channel : List Published)
    → get_elem? pool i ≡ some channel
    → get_elem? (publish_at i msg pool) i ≡ some (channel ++ msg ∷ [])
publish_at_self i msg pool channel e =
    rw (e, publish_at)
      (get_elem?-set_self pool i (channel ++ msg ∷ []) (get_elem?-lt pool i channel e))

publish_at_ne :
    (index i : ℕ) (msg : Published) (pool : List (List Published))
    → index ≢ i
    → get_elem? (publish_at index msg pool) i ≡ get_elem? pool i
publish_at_ne index i msg pool ne = elim (Option-cases (get_elem? pool index)) [
  | inl e ↦ rw (e, publish_at) refl
  | inr (channel, e) ↦ rw (e, publish_at) (get_elem?-set_ne pool index i (channel ++ msg ∷ []) ne)
]

publish-pool :
    (msg : Published) (m : MqManager) (i : ℕ) (channel : List Published)
    → get_elem? m.pool i ≡ some channel
    → get_elem? (publish msg m).pool i
      ≡ some (channel ++ (if m.counter % m.pool_size == i then msg ∷ [] else []))
unfolding publish
publish-pool msg m i channel e =
    let index = m.counter % m.pool_size in
    elim (Bool-cases (index == i)) [
      | inl h ↦ rw h (
          subst (λ j. get_elem? (publish_at j msg m.pool) i ≡ some (channel ++ msg ∷ []))
            (sym ((==_iff index i).0 h)) (publish_at_self i msg m.pool channel e))
      | inr h ↦ rw h (
          publish_at_ne index i msg m.pool (ground (arith, ==_iff index i))
          ∙ e
          ∙ ap some (sym (append-nil channel)))
    ]

at_turns_cons :
    (n c i : ℕ) (msg : Published) (msgs : List Published)
    → (if c % n == i then msg ∷ [] else []) ++ at_turns n (c + 1) i msgs
      ≡ at_turns n c i (msg ∷ msgs)
unfolding at_turns
at_turns_cons n c i msg msgs = elim (Bool-cases (c % n == i)) [
  | inl e ↦ rw e refl
  | inr e ↦ rw e refl
]

publish_all-at_turns :
    (msgs : List Published) (m : MqManager) (i : ℕ) (channel : List Published)
    → m.counter + length msgs < 2 ^ 64
    → get_elem? m.pool i ≡ some channel
    → get_elem? (publish_all msgs m).pool i
      ≡ some (channel ++ at_turns m.pool_size m.counter i msgs)
unfolding publish_all publish at_turns
publish_all-at_turns [] m i channel h e = e ∙ ap some (sym (append-nil channel))
publish_all-at_turns (msg ∷ msgs) m i channel h e =
    let turn = if m.counter % m.pool_size == i then msg ∷ [] else [] in
    let count : (m.counter + 1) % 2 ^ 64 ≡ m.counter + 1 = omega arith in
    publish_all-at_turns msgs (publish msg m) i (channel ++ turn) (ground arith)
      (publish-pool msg m i channel e)
    ∙ ap some (append_assoc channel turn _)
    ∙ ap (λ k. some (channel ++ (turn ++ at_turns m.pool_size k i msgs))) count
    ∙ ap (λ l. some (channel ++ l)) (at_turns_cons m.pool_size m.counter i msg msgs)

-- The share of a channel among five.
length-at_turns :
    (c i : ℕ) (msgs : List Published)
    → i < 5
    → length (at_turns 5 c i msgs) + (c + 4 - i) / 5 ≡ (c + length msgs + 4 - i) / 5
unfolding at_turns
length-at_turns c i [] h = omega arith
length-at_turns c i (msg ∷ msgs) h = ground (arith, length-at_turns (c + 1) i msgs h)

channels-get_elem? : (n i : ℕ) → i < n → get_elem? (channels n) i ≡ some []
channels-get_elem? zero i h = elim h [ ]
channels-get_elem? (suc n) zero h = refl
channels-get_elem? (suc n) (suc i) h = channels-get_elem? n i (omega arith)

-- After fewer than 2^64 messages the channels of the program's five hold them in turns: each holds every fifth
-- message, in order, and no channel holds more than one message above its fifth of them.
pub publish_all-new_manager :
    (msgs : List Published) (i : ℕ)
    → length msgs < 2 ^ 64
    → i < 5
    → (get_elem? (publish_all msgs (new_manager 5)).pool i ≡ some (at_turns 5 0 i msgs))
      × (length msgs / 5 ≤ length (at_turns 5 0 i msgs))
      × (length (at_turns 5 0 i msgs) ≤ length msgs / 5 + 1)
publish_all-new_manager msgs i h l = (
  publish_all-at_turns msgs (new_manager 5) i [] (ground arith) (channels-get_elem? 5 i l),
  omega (arith, length-at_turns 0 i msgs l),
  omega (arith, length-at_turns 0 i msgs l),
)
