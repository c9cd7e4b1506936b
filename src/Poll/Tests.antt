-- ===== src/Poll/Tests.antt =====
-- The server with two clients.
use sasy_server.Base.{
  codes, ◌≡◌, refl, [], ◌∷◌, true, false, none, some, ok, arith, if◌then◌else◌, ◌==◌,
}
use sasy_server.Poll.{
  Server, new_server, empty_slots, Kernel, round, recv_client_msg, recv_loop, accept_client,
  into_slot,
}
use sasy_server.Poll.Count.{IsServer, Reached, starts, accepts, Reached-IsServer}
use sasy_server.Poll.Echo.{recv_client_msg-stale}

-- The socket 7 has sent a longer text than the others.
abbrev kernel : Kernel
kernel = record {
  is_set = λ fd. true;
  read = λ fd. some (if fd == 7 then codes "hello" else codes "ok");
}

abbrev two_clients : Server
two_clients = record {
  clients_fd = some 7 ∷ some 8 ∷ empty_slots 1022;
  client_count = 2;
  closed = [];
}

recv_client_msg-stale_example :
    recv_client_msg kernel two_clients
    ≡ ok (two_clients, (7, codes "hello") ∷ (8, codes "okllo") ∷ [])
recv_client_msg-stale_example =
    recv_client_msg-stale kernel 7 8 (codes "hello") (codes "ok") (refl, refl) (refl, refl)
      (omega arith, (omega arith, (omega arith, (omega arith, (omega arith, tt)))))
      (omega arith, (omega arith, tt)) (omega arith) (omega arith)

abbrev quiet : Kernel
quiet = record { is_set = λ fd. false; read = λ fd. none }

abbrev one_client : Server
one_client = record { clients_fd = some 7 ∷ empty_slots 1023; client_count = 1; closed = [] }

first_round : round (some (some 7)) quiet new_server ≡ ok (one_client, [])
unfolding round accept_client into_slot recv_client_msg recv_loop
first_round = refl

Reached-one_client : Reached (7 ∷ []) one_client
Reached-one_client = accepts (some 7) quiet one_client [] starts first_round

Reached-IsServer_example : IsServer (7 ∷ []) one_client
Reached-IsServer_example = Reached-IsServer (7 ∷ []) one_client Reached-one_client
