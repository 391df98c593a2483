-- ===== src/MailTime/Startup.antt =====
-- index.js, `___ready`: what an instance waits for before it is ready. How the storage's own `ready`
-- and the scheduler's timer ended (`false` is an exception; `true` too where there is none), what the
-- ping answered, and what the transports' `verify()` came to are parameters.
use mail_time.Prelude.{
  ◌<◌, ◌≡◌, Bool, true, false, not, ◌&&◌, ◌==◌, List, [], Option, none, some, if◌then◌else◌, length,
  get_elem?,
}
use mail_time.Js.Text.{lit, text_eq}
use mail_time.Js.Value.{Value}
use mail_time.Adapters.Ping.{PingResult}
use mail_time.MailTime.Configure.{is_server_side}
use mail_time.MailTime.State.{MailTime}
use mail_time.MailTime.Transports.{
  Failure, Verified, verified, all_failed, verify_transports, is_healthy_transport,
}
use mail_time.MailTime.Transports.Marked.{verify_transports-is_healthy_transport}

pub data Readied : Type 0 where
  is_ready : MailTime → List Failure → Readied
  storage_failed : Readied
  scheduler_failed : Readied
  not_connected : PingResult → Readied
  no_transport : List Failure → Readied

abbrev pub readied : Verified → Readied
readied (verified m failures) = is_ready m failures
readied (all_failed failures) = no_transport failures

abbrev pub verifies : MailTime → Bool
verifies m = is_server_side m.side && (m.verify_transports && not (length m.transports == 0))

unfoldable pub get_ready : Bool → Bool → PingResult → List (Option Value) → MailTime → Readied
unfolding verify_transports
get_ready queue_ready timer_set ping_result results m =
    if not queue_ready
    then storage_failed
    else if not timer_set
    then scheduler_failed
    else if not (text_eq ping_result.status (lit "OK"))
    then not_connected ping_result
    else if verifies m
    then readied (verify_transports m results)
    else is_ready m []

reached :
    (a b c : Bool) (p : PingResult) (m m' : MailTime) (fs : List Failure) (v : Verified)
    → (if a
        then storage_failed
        else if b
        then scheduler_failed
        else if c
        then not_connected p
        else if true
        then readied v
        else is_ready m [])
      ≡ is_ready m' fs
    → v ≡ verified m' fs
reached true b c p m m' fs v e = cc
reached false true c p m m' fs v e = cc
reached false false true p m m' fs v e = cc
reached false false false p m m' fs (verified m1 fs1) e = cc
reached false false false p m m' fs (all_failed fs1) e = cc

-- When an instance that verifies its transports becomes ready, having marked none before and probed
-- each one, from a transport that exists, then the transport that it is set to exists, is not marked,
-- and its probe came to no error.
pub get_ready-is_healthy_transport :
    (queue_ready timer_set : Bool) (ping_result : PingResult) (results : List (Option Value))
    (m m' : MailTime) (failures : List Failure)
    → get_ready queue_ready timer_set ping_result results m ≡ is_ready m' failures
    → verifies m ≡ true
    → m.unhealthy_transports ≡ []
    → length results ≡ length m.transports
    → m.transport < length m.transports
    → (m'.transport < length m'.transports)
      × (is_healthy_transport m' m'.transport ≡ true)
      × (get_elem? results m'.transport ≡ some none)
unfolding get_ready
get_ready-is_healthy_transport queue_ready timer_set ping_result results m m' fs e v fresh count
      first =
    verify_transports-is_healthy_transport m results m' fs fresh count first
      (reached (not queue_ready) (not timer_set) _ ping_result m m' fs _ (rw v at e))
