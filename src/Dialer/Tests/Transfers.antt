-- ===== src/Dialer/Tests/Transfers.antt =====
-- Transfers by keys, run and judged by the theorem on them.
use spectrum_connect_backend.Common.{◌≡◌, refl, none, some, [], ◌∷◌}
use spectrum_connect_backend.Common.Dict.{lookup}
use spectrum_connect_backend.Dialer.State.{
  PendingTransfer, Dialer, hangup, stop_moh, continue_in_dialplan,
}
use spectrum_connect_backend.Dialer.Async.{start}
use spectrum_connect_backend.Dialer.Dtmf.{DtmfAnswers, join}
use spectrum_connect_backend.Dialer.Dtmf.Transfer.{kept, last_after, press, transfer_by_keys}
use spectrum_connect_backend.Dialer.Tests.{ok, refused, agent_leg, in_call}

abbrev dtmf_answers : DtmfAnswers
dtmf_answers = record { stop = refused; continue = ok; hang = ok; start = ok }

abbrev dialled : PendingTransfer
dialled = record { digits = []; agent_channel_id = "a1"; customer_channel_id = "c1" }

abbrev transferring : Dialer
transferring = record in_call {
  pending_transfers = ("log1", dialled) ∷ [];
  last_dtmf = ("a1", some "#") ∷ [];
}

-- Of "2", "0", "0" the repeated key is lost.
kept_test : kept (some "#") ("2" ∷ "0" ∷ "0" ∷ []) ≡ "2" ∷ "0" ∷ []
unfolding kept
kept_test = refl

transfer_by_keys_example :
    (lookup "log1"
        (press dtmf_answers "a1" ("#" ∷ []) (
          press dtmf_answers "a1"
            ("2" ∷ "0" ∷ "0" ∷ [])
            (start transferring))).dialer.pending_transfers
      ≡ none)
    × ((press dtmf_answers "a1"
          ("#" ∷ [])
          (press dtmf_answers "a1" ("2" ∷ "0" ∷ "0" ∷ []) (start transferring))).trace
        ≡ stop_moh "c1" ∷ continue_in_dialplan "c1" "20" ∷ hangup "a1" ∷ [])
unfolding lookup kept last_after join
transfer_by_keys_example =
    transfer_by_keys dtmf_answers "a1" agent_leg refl dialled (some "#") ("2" ∷ "0" ∷ "0" ∷ [])
      (start transferring) (record { known = refl; pending = refl; last_key = refl })
      (refl, (refl, (refl, tt))) refl
