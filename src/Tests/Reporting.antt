-- ===== src/Tests/Reporting.antt =====
-- Statistics at concrete members. An entry of the log is the list of the numbers in it.
use view_sync.Prelude.{some, ℕ, ◌≡◌, List, [], ◌∷◌, ◌++◌, take, arith, ◌+◌}
use view_sync.Prelude.Outcome.{done, fault, Returns}
use view_sync.State.{Cbcast}
use view_sync.Init.{fresh}
use view_sync.Statistics.{Key, CJson, cbc_collect_statistics}
use view_sync.Statistics.Laws.{
  numbers_of, with_numbers, with_fields, cbc_collect_statistics_lem, cbc_collect_statistics-fault,
}
use view_sync.Statistics.Loki.{CJsonText}
use view_sync.Worker.Loop.{Loop, Round, worker_round}
use view_sync.Worker.Rounds.{IsReady, clock_after, first_of, rest_of, worker_round-Returns}
use view_sync.Send.Total.{IsSound}
use view_sync.Tests.Data.{member, peer_one}

abbrev numbers : CJson (List ℕ)
numbers = record {
  create_object = [];
  create_array = [];
  create_number = λ n. n ∷ [];
  add_number_to_object = λ object key n. object ++ (n ∷ []);
  add_item_to_array = λ array item. array ++ item;
  add_item_to_object = λ object key item. object ++ item;
}

abbrev one_of_five : Cbcast
one_of_five = fresh 0 (1 ∷ 2 ∷ 3 ∷ 4 ∷ 5 ∷ [])

cbc_collect_statistics_lem_example :
    cbc_collect_statistics numbers one_of_five
    ≡ done (
      record one_of_five {
        stats = record (one_of_five.stats) {
          sent_msg_buffer_size = 0;
          held_msg_buffer_size = 0;
          delivery_queue_size = 0;
          vector_clock_snapshot = some one_of_five.vclock;
          num_peers = 4;
        };
      },
      numbers.add_item_to_object
          (with_fields numbers [] (numbers_of one_of_five))
          Key.vector_clock_snapshot
          (with_numbers numbers [] (take 4 one_of_five.vclock)),
    )
cbc_collect_statistics_lem_example = cbc_collect_statistics_lem numbers one_of_five (omega arith)

cbc_collect_statistics-fault_example : cbc_collect_statistics numbers member ≡ fault
cbc_collect_statistics-fault_example = cbc_collect_statistics-fault numbers member (omega arith)

abbrev texts : CJsonText (List ℕ)
texts = record {
  create_string = λ text. text;
  add_string_to_object = λ object key text. object;
  add_item_to_object = λ object key item. object ++ item;
  print_unformatted = λ json. json;
}

-- A worker with a peer, in its tenth round.
abbrev ninth : Loop
ninth = record {
  cbc = record one_of_five { peers = peer_one ∷ [] };
  received_counter = 0;
  counter = 9;
}

ninth-IsReady : IsReady ninth.cbc
ninth-IsReady = record {
  sound = record { known = ((omega arith, tt), tt); resendable = tt };
  peers = omega arith;
  inside = omega arith;
  clocks = omega arith;
}

worker_round-Returns_example :
    Returns
      (λ (r : Round).
        (r.shown ≡ first_of ninth.cbc.delivery_queue)
        × (r.loop.cbc.delivery_queue ≡ rest_of ninth.cbc.delivery_queue)
        × (r.loop.counter ≡ 9 + 1)
        × (r.loop.cbc.vclock ≡ clock_after (9 + 1) ninth.cbc)
        × IsSound r.loop.cbc)
      (worker_round numbers texts (λ n. (48 + n) ∷ []) ninth (49 ∷ []))
worker_round-Returns_example =
    worker_round-Returns numbers texts (λ n. (48 + n) ∷ []) ninth (49 ∷ []) ninth-IsReady
