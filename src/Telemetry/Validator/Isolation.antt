-- ===== src/Telemetry/Validator/Isolation.antt =====
-- The book of one session among the events of all.
use iicpc_summer_hackathon.Prelude.{
  String, ◌≡◌, refl, sym, ap, ap₂, ◌∙◌, ◌⊎◌, inl, inr, true, false, List, [], ◌∷◌, Option, none,
  some, arith, if◌then◌else◌, str_eq, eq_iff, Bool-cases,
}
use iicpc_summer_hackathon.Prelude.Dict.{lookup, lookup-insert, lookup-delete, has_key}
use iicpc_summer_hackathon.Prelude.Float.{Float64}
use iicpc_summer_hackathon.Telemetry.Event.{TelemetryEvent}
use iicpc_summer_hackathon.Telemetry.Book.{OrderBook, new_order_book, remove_order}
use iicpc_summer_hackathon.Telemetry.Validator.{Validator, get_book, dispatch, validate, check_fill}

module _ {F : Type 0} ⦃fl : Float64 F⦄ where
  -- The book that the next event of a session is judged against.
  abbrev pub book_of : String → Validator F → OrderBook F
  book_of s v = (get_book v s).0

  -- What the map holds for a session, or a new book.
  abbrev or_new : Option (OrderBook F) → OrderBook F
  or_new none = new_order_book
  or_new (some b) = b

  book_of_stored : (v : Validator F) (s : String) → book_of s v ≡ or_new (lookup s v.books)
  unfolding get_book
  book_of_stored v s = ground arith

  -- To look a book up, and to make it where it is missing, changes no session's book.
  book_of-get_book :
      (v : Validator F) (k s : String)
      → or_new (lookup s (get_book v k).1.books) ≡ or_new (lookup s v.books)
  unfolding get_book
  book_of-get_book v k s = ground (arith, eq_iff k s, lookup-insert k s new_order_book v.books)

  -- An event steps the book of its own session, and no other.
  pub validate-book_of :
      (v : Validator F) (e : TelemetryEvent F) (s : String)
      → book_of s (validate v e).1
        ≡ (if str_eq e.session_id s then (dispatch (book_of s v) e).1 else book_of s v)
  unfolding validate
  validate-book_of v e s =
      book_of_stored (validate v e).1 s
      ∙ ap or_new (lookup-insert e.session_id s _ (get_book v e.session_id).1.books)
      ∙ elim (Bool-cases (str_eq e.session_id s)) [
        | inl same ↦ rw (same, (eq_iff e.session_id s).0 same)
        | inr other ↦ rw other (book_of-get_book v e.session_id s ∙ sym (book_of_stored v s))
      ]

  session_id-dispatch :
      (book : OrderBook F) (e : TelemetryEvent F) → (dispatch book e).0.session_id ≡ e.session_id
  unfolding dispatch check_fill
  session_id-dispatch book e = ground arith

  pub session_id-validate :
      (v : Validator F) (e : TelemetryEvent F) → (validate v e).0.session_id ≡ e.session_id
  unfolding validate
  session_id-validate v e = session_id-dispatch (book_of e.session_id v) e

  -- The verdict on an event of a session is that of its own book.
  validate-own :
      (v : Validator F) (e : TelemetryEvent F) (s : String)
      → str_eq e.session_id s ≡ true
      → (validate v e).0 ≡ (dispatch (book_of s v) e).0
  unfolding validate
  validate-own v e s same = rw ((eq_iff e.session_id s).0 same)

  -- The events of one session.
  pub only : String → List (TelemetryEvent F) → List (TelemetryEvent F)
  only s [] = []
  only s (e ∷ es) = let rest = only s es in if str_eq e.session_id s then e ∷ rest else rest

  -- Every event in turn, as the consumer does.
  unfoldable pub validate_all :
      Validator F → List (TelemetryEvent F) → List (TelemetryEvent F) × Validator F
  validate_all v [] = ([], v)
  validate_all v (e ∷ es) =
      let (e', v') = validate v e in let (rest, w) = validate_all v' es in (e' ∷ rest, w)

  -- One session's events on a book of its own.
  pub replay : OrderBook F → List (TelemetryEvent F) → List (TelemetryEvent F) × OrderBook F
  replay book [] = ([], book)
  replay book (e ∷ es) =
      let (e', book') = dispatch book e in let (rest, last) = replay book' es in (e' ∷ rest, last)

  -- However the sessions' events interleave, the verdicts on one session's events, and its book in
  -- the end, are those of its events alone, in their order, on its own book.
  pub validate_all-only :
      (v : Validator F) (es : List (TelemetryEvent F)) (s : String)
      → let alone = replay (book_of s v) (only s es) in
        (only s (validate_all v es).0 ≡ alone.0) × (book_of s (validate_all v es).1 ≡ alone.1)
  unfolding validate_all only replay
  validate_all-only v [] s = (refl, refl)
  validate_all-only v (e ∷ es) s =
      let rest = validate_all-only (validate v e).1 es s in
      let step = validate-book_of v e s in
      elim (Bool-cases (str_eq e.session_id s)) [
        | inl same ↦
            let here =
              step ∙ ap (λ b. if b then (dispatch (book_of s v) e).1 else book_of s v) same in
            rw (session_id-validate v e, same)
              (
                ap₂ ◌∷◌ (validate-own v e s same)
                    (rest.0 ∙ ap (λ b. (replay b (only s es)).0) here),
                rest.1 ∙ ap (λ b. (replay b (only s es)).1) here,
              )
        | inr other ↦
            let here =
              step ∙ ap (λ b. if b then (dispatch (book_of s v) e).1 else book_of s v) other in
            rw (session_id-validate v e, other)
              (
                rest.0 ∙ ap (λ b. (replay b (only s es)).0) here,
                rest.1 ∙ ap (λ b. (replay b (only s es)).1) here,
              )
      ]

  dispatch_closes :
      (book : OrderBook F) (e : TelemetryEvent F)
      → (e.event_type ≡ "FILL") ⊎ (e.event_type ≡ "CANCEL")
      → (dispatch book e).1 ≡ remove_order book e.order_id
  unfolding dispatch
  dispatch_closes book e h = ground (
    arith,
    eq_iff e.event_type "ACK",
    eq_iff e.event_type "FILL",
    eq_iff e.event_type "CANCEL",
    eq_iff "ACK" "FILL",
    eq_iff "ACK" "CANCEL",
  )

  -- Once an order is filled or cancelled, its session's book has no live order of that id.
  pub closed_order_not_live :
      (v : Validator F) (e : TelemetryEvent F)
      → (e.event_type ≡ "FILL") ⊎ (e.event_type ≡ "CANCEL")
      → has_key e.order_id (book_of e.session_id (validate v e).1).order_index ≡ false
  unfolding remove_order
  closed_order_not_live v e h = rw (
    validate-book_of v e e.session_id,
    (eq_iff e.session_id e.session_id).1 refl,
    dispatch_closes (book_of e.session_id v) e h,
    lookup-delete e.order_id e.order_id (book_of e.session_id v).order_index,
    (eq_iff e.order_id e.order_id).1 refl,
  )
