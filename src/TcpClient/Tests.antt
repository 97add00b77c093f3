-- ===== src/TcpClient/Tests.antt =====
-- A client that waits for its next attempt, and one that is connecting.
use yy.EventHandler.{added}
use yy.Event.{has_event}
use yy.Prelude.{
  ℕ, ◌*◌, ◌^◌, ◌<◌, ◌≡◌, refl, true, false, none, some, List, [], ◌∷◌, arith, get_or, min,
}
use yy.TcpClient.Backoff.{refused, backoff_lem, unknown_errors, unknown_errors_nest}
use yy.TcpClient.Laws.{IsSane, IsSaneResult, events-IsSane}
use yy.TcpClient.{
  TcpClient, disconnected, connecting, econnrefused, start_in_loop, handle_write, handle_error,
  stop_in_loop, max_retry_delay, init_retry_delay,
}

abbrev waiting : TcpClient
waiting = record {
  state = disconnected;
  handler = none;
  has_fd = false;
  retry_delay = init_retry_delay;
  retry = true;
  connection = false;
  has_callback = true;
  timers = [];
  opened = 0;
  closed = 0;
}

abbrev at_work : TcpClient
at_work = record waiting {
  state = connecting;
  handler = some (record { status = added; events = 4; watched = some 4 });
  has_fd = true;
  opened = 1;
}

backoff_lem_example :
    (c' : TcpClient) × (refused 3 waiting ≡ some c')
    × (c'.state ≡ disconnected)
    × (c'.opened ≡ 3)
    × (c'.closed ≡ 3)
    × ((ds : List ℕ) × (c'.timers ≡ ds)
        × ((k : ℕ) → k < 3 → get_or ds k 0 ≡ min (init_retry_delay * 2 ^ k) max_retry_delay))
backoff_lem_example = backoff_lem 3 waiting refl refl (omega arith)

unknown_errors_nest_example :
    (c' : TcpClient) × (start_in_loop (unknown_errors 2 (econnrefused ∷ [])) waiting
      ≡ start_in_loop (econnrefused ∷ []) c')
    × (c'.timers ≡ [])
    × (c'.opened ≡ 2)
    × (start_in_loop (unknown_errors 2 []) waiting ≡ none)
unknown_errors_nest_example = unknown_errors_nest 2 (econnrefused ∷ []) waiting refl refl

events-IsSane_example :
    ((d : TcpClient) × (handle_write 111 false at_work ≡ some d) × IsSane d)
    × ((d : TcpClient) × (handle_error at_work ≡ some d) × IsSane d)
    × ((d : TcpClient) × (stop_in_loop at_work ≡ some d) × IsSane d)
    × IsSaneResult (start_in_loop (econnrefused ∷ []) at_work)
unfolding has_event
events-IsSane_example =
    events-IsSane 111 false (econnrefused ∷ []) at_work
      (record { is_added = refl; watches = refl; valid = omega arith }, refl) refl
