-- ===== src/Chat/Queue/Worker.antt =====
-- What a worker acknowledges.
use miniaibrowse_cpp.Common.{
  ◌≡◌, inl, inr, refl, sym, ap, ◌∙◌, List, [], ◌∷◌, ◌++◌, append_assoc, append-nil, Option, none,
  some, Bytes, bytes_key, ℕ_key,
}
use miniaibrowse_cpp.Chat.Accounts.{Outcome, Outcome-cases, returned, threw}
use miniaibrowse_cpp.Chat.Queue.{Poll, Worked, work, worker}

-- The messages of the polls, in order.
abbrev pub delivered : List Poll → List Bytes
delivered [] = []
delivered (none ∷ polls) = delivered polls
delivered (some msg ∷ polls) = msg ∷ delivered polls

module _ {Db : Type 0} (handler : Bytes → Db → Outcome Db) where
  -- The messages handled one behind the other, all of them.
  unfoldable pub handle_all : List Bytes → Db → Outcome Db
  handle_all [] db = returned db
  handle_all (msg ∷ msgs) db = elim (handler msg db) [
    | threw what ↦ threw what
    | returned db' ↦ handle_all msgs db'
  ]

  -- Nothing is left, or the message on which the handler threw and those behind it.
  abbrev pub Left : Option Bytes → Db → List Bytes → Type 0
  Left none db left = left ≡ []
  Left (some what) db left =
      (msg : Bytes) × (rest : List Bytes) × (left ≡ msg ∷ rest) × (handler msg db ≡ threw what)

  abbrev Did : List Bytes → List Bytes → Db → Worked Db → Type 0
  Did acked msgs db w =
      (new : List Bytes) × (left : List Bytes) × (w.acked ≡ acked ++ new)
      × (msgs ≡ new ++ left)
      × (handle_all new db ≡ returned w.db)
      × Left w.ended_by w.db left

  one_handled :
      (msg : Bytes) (polls : List Poll) (db db' : Db) (acked : List Bytes) (w : Worked Db)
      → handler msg db ≡ returned db'
      → Did (acked ++ msg ∷ []) (delivered polls) db' w
      → Did acked (msg ∷ delivered polls) db w
  unfolding handle_all
  one_handled msg polls db db' acked w e (new, left, a, d, all_handled, l) = (
    msg ∷ new,
    left,
    a ∙ append_assoc acked (msg ∷ []) new,
    ap (λ ms. msg ∷ ms) d,
    rw (e, handle_all) all_handled,
    l,
  )

  work-Left :
      (polls : List Poll) (db : Db) (acked : List Bytes)
      → Did acked (delivered polls) db (work handler polls db acked)
  unfolding work handle_all
  work-Left [] db acked = ([], [], sym (append-nil acked), refl, refl, refl)
  work-Left (none ∷ polls) db acked = work-Left polls db acked
  work-Left (some msg ∷ polls) db acked = elim (Outcome-cases (handler msg db)) [
    | inr (what, e) ↦
        rw (e, work)
          (
            [],
            msg ∷ delivered polls,
            sym (append-nil acked),
            refl,
            refl,
            (msg, delivered polls, refl, e),
          )
    | inl (db', e) ↦
        rw (e, work)
          (one_handled msg polls db db' acked (work handler polls db' (acked ++ msg ∷ [])) e
            (work-Left polls db' (acked ++ msg ∷ [])))
  ]

  -- A worker whose channel opens acknowledges the messages it was sent, in their order, after its handler ran
  -- them, up to the first one on which the handler throws; on that one it ends, and neither that message nor
  -- one behind it is acknowledged. Without an exception every message is.
  pub worker-acked :
      (polls : List Poll) (db : Db)
      → (left : List Bytes) × (delivered polls ≡ (worker handler none polls db).acked ++ left)
        × (handle_all (worker handler none polls db).acked db
            ≡ returned (worker handler none polls db).db)
        × Left (worker handler none polls db).ended_by (worker handler none polls db).db left
  unfolding worker
  worker-acked polls db =
      let (new, left, a, d, all_handled, l) = work-Left polls db [] in
      (left, d ∙ ap (λ ms. ms ++ left) (sym a), ap (λ ms. handle_all ms db) a ∙ all_handled, l)
