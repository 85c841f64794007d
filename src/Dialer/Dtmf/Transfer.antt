-- ===== src/Dialer/Dtmf/Transfer.antt =====
-- A blind transfer, key by key (`onDtmfReceived` of src/dialer/dialer.service.ts): which digits reach
-- the extension, and what the closing `#` does.
use spectrum_connect_backend.Common.{
  ◌≡◌, refl, ◌∙◌, ap, true, false, String, Option, none, some, List, [], ◌∷◌, ◌++◌, arith,
  is_truthy, str_eq, eq_refl, All, Bool-cases, inl, inr, append-nil, append_assoc,
}
use spectrum_connect_backend.Common.Dict.{lookup, lookup-insert_self, lookup-remove_self}
use spectrum_connect_backend.Dialer.State.{
  Meta, PendingTransfer, Effect, stop_moh, hangup, continue_in_dialplan,
}
use spectrum_connect_backend.Dialer.Async.{World, final}
use spectrum_connect_backend.Dialer.Dtmf.{
  DtmfAnswers, on_dtmf_received, new_key, handle_key, finish_transfer, safe_stop_moh, safe_hangup,
  is_last, push_digit, extension_of, set_last,
}

-- The channel `ch` has a record, a transfer of its call is pending, and its last key is `last`
-- (`none` for `undefined`).
pub record Collecting (ch : String) (meta : Meta) (t : PendingTransfer) (last : Option String)
    (w : World) : Type 0 where
  pub known : lookup ch w.dialer.channel_to_meta ≡ some meta
  pub pending : lookup meta.call_log_id w.dialer.pending_transfers ≡ some t
  pub last_key : lookup ch w.dialer.last_dtmf ≡ some last

-- The digits that pass, and the last key after them: a key that repeats the last one is dropped, and
-- then counts as no key at all.
unfoldable pub kept : Option String → List String → List String
kept last [] = []
kept last (d ∷ ds) = elim (is_last d (some last)) [
  | true ↦ kept none ds
  | false ↦ d ∷ kept (some d) ds
]

unfoldable pub last_after : Option String → List String → Option String
last_after last [] = last
last_after last (d ∷ ds) = elim (is_last d (some last)) [
  | true ↦ last_after none ds
  | false ↦ last_after (some d) ds
]

-- Keys pressed one after the other on one channel.
unfoldable pub press : DtmfAnswers → String → List String → World → World
press a ch [] w = w
press a ch (d ∷ ds) w = press a ch ds (final (on_dtmf_received a ch d w))

abbrev pub with_digits : PendingTransfer → List String → PendingTransfer
with_digits t ds = record t { digits = t.digits ++ ds }

module _ (a : DtmfAnswers) (ch : String) (meta : Meta)
    (logged : is_truthy meta.call_log_id ≡ true) where
  repeated_key :
      (t : PendingTransfer) (last : Option String) (d : String) (w : World)
      → Collecting ch meta t last w
      → is_last d (some last) ≡ true
      → Collecting ch meta t none (final (on_dtmf_received a ch d w))
        × ((final (on_dtmf_received a ch d w)).trace ≡ w.trace)
  unfolding on_dtmf_received
  repeated_key t last d w c same =
      ground (arith, c.last_key, c.known, c.pending, lookup-insert_self ch none w.dialer.last_dtmf)

  digit_key :
      (t : PendingTransfer) (last : Option String) (d : String) (w : World)
      → Collecting ch meta t last w
      → is_last d (some last) ≡ false
      → str_eq d "#" ≡ false
      → Collecting ch meta (push_digit d t) (some d) (final (on_dtmf_received a ch d w))
        × ((final (on_dtmf_received a ch d w)).trace ≡ w.trace)
  unfolding on_dtmf_received new_key handle_key
  digit_key t last d w c fresh digit = ground (
    arith,
    c.last_key,
    c.known,
    c.pending,
    lookup-insert_self ch (some d) w.dialer.last_dtmf,
    lookup-insert_self meta.call_log_id (push_digit d t) w.dialer.pending_transfers,
  )

  digits_pressed :
      (t : PendingTransfer) (last : Option String) (ds : List String) (w : World)
      → Collecting ch meta t last w
      → All (λ d. str_eq d "#" ≡ false) ds
      → Collecting ch meta (with_digits t (kept last ds)) (last_after last ds) (press a ch ds w)
        × ((press a ch ds w).trace ≡ w.trace)
  unfolding press kept last_after
  digits_pressed t last [] w c h = (
    record { known = c.known; pending = rw (append-nil t.digits) c.pending; last_key = c.last_key },
    refl,
  )
  digits_pressed t last (d ∷ ds) w c h = elim (Bool-cases (is_last d (some last))) [
    | inl same ↦
        let (c', e) = repeated_key t last d w c same in
        let (c'', e') = digits_pressed t none ds _ c' h.1 in
        rw (same, kept, last_after) (c'', e' ∙ e)
    | inr fresh ↦
        let (c', e) = digit_key t last d w c fresh h.0 in
        let (c'', e') = digits_pressed (push_digit d t) (some d) ds _ c' h.1 in
        rw (fresh, kept, last_after)
          (
            record {
              known = c''.known;
              pending = rw (← append_assoc t.digits (d ∷ []) (kept (some d) ds)) c''.pending;
              last_key = c''.last_key;
            },
            e' ∙ e,
          )
  ]

  -- The requests of the closing key, whatever they are answered.
  abbrev pub closing : PendingTransfer → List Effect
  closing t =
      stop_moh t.customer_channel_id
      ∷ continue_in_dialplan t.customer_channel_id (extension_of t)
      ∷ hangup t.agent_channel_id
      ∷ []

  finish_transfer_lem :
      (t : PendingTransfer) (w : World)
      → (lookup meta.call_log_id (final (finish_transfer a meta t w)).dialer.pending_transfers
          ≡ none)
        × ((final (finish_transfer a meta t w)).trace ≡ w.trace ++ closing t)
  unfolding finish_transfer safe_stop_moh safe_hangup
  finish_transfer_lem t w =
      let end = a.hang.meanwhile (a.continue.meanwhile (a.stop.meanwhile w.dialer)) in
      ground (
        arith,
        lookup-remove_self meta.call_log_id end.pending_transfers,
        append_assoc w.trace (stop_moh t.customer_channel_id ∷ [])
            (continue_in_dialplan t.customer_channel_id (extension_of t) ∷ []),
        append_assoc w.trace
            (stop_moh t.customer_channel_id
              ∷ continue_in_dialplan t.customer_channel_id (extension_of t)
              ∷ [])
            (hangup t.agent_channel_id ∷ []),
      )

  closing_key :
      (t : PendingTransfer) (last : Option String) (w : World)
      → Collecting ch meta t last w
      → is_last "#" (some last) ≡ false
      → (lookup meta.call_log_id (final (on_dtmf_received a ch "#" w)).dialer.pending_transfers
          ≡ none)
        × ((final (on_dtmf_received a ch "#" w)).trace ≡ w.trace ++ closing t)
  unfolding on_dtmf_received new_key handle_key
  closing_key t last w c fresh = ground (
    arith,
    c.last_key,
    c.known,
    c.pending,
    eq_refl "#",
    finish_transfer_lem t (record w { dialer = set_last ch (some "#") w.dialer }),
  )

  -- While a transfer of the channel's call is pending, digits and then `#` make these requests in
  -- this order: the customer's music stops, the customer goes to the extension that the kept digits
  -- spell (`200` if they spell the empty text), and the agent's leg is hung up. The transfer is then
  -- no longer pending. The digits that are kept are those that do not repeat the key before, where a
  -- dropped key counts as none. All this holds whatever the calls are answered and whatever runs
  -- while they wait, if no other handler runs between the keys, the channel has a call log, no digit
  -- is `#`, and the last key that counts is not `#`.
  pub transfer_by_keys :
      (t : PendingTransfer) (last : Option String) (ds : List String) (w : World)
      → Collecting ch meta t last w
      → All (λ d. str_eq d "#" ≡ false) ds
      → is_last "#" (some (last_after last ds)) ≡ false
      → (lookup meta.call_log_id (press a ch ("#" ∷ []) (press a ch ds w)).dialer.pending_transfers
          ≡ none)
        × ((press a ch ("#" ∷ []) (press a ch ds w)).trace
            ≡ w.trace ++ closing (with_digits t (kept last ds)))
  unfolding press
  transfer_by_keys t last ds w c digits fresh =
      let (c', e) = digits_pressed t last ds w c digits in
      let (gone, requests) = closing_key _ _ (press a ch ds w) c' fresh in
      (gone, requests ∙ ap (λ es. es ++ closing (with_digits t (kept last ds))) e)
