-- ===== src/Labrpc/Tests.antt =====
-- Runs of the network of src/labrpc/labrpc.go.
use mit_6_5824_lab.Prelude.{lookup, insert, ℕ, String, ◌≡◌, refl, true, some, [], ◌∷◌}
use mit_6_5824_lab.Labrpc.Network.{
  Network, make_network, is_enabled, connection, server_at, read_endname_info, is_server_dead,
}
use mit_6_5824_lab.Labrpc.Process.{
  Draws, finish_req, process_req, process_req_sound, process_req_reliable,
}
use mit_6_5824_lab.Labrpc.Server.{
  Method, unsuitable, suitable_methods, make_service, make_server, add_service, dispatch_method,
  dispatch,
}

-- One enabled end that is connected to a server.
abbrev connected : Network
connected = record make_network {
  enabled = ("end", true) ∷ [];
  servers = ("server", some 0) ∷ [];
  connections = ("end", some "server") ∷ [];
}

abbrev draws : Draws
draws = record { drop_request = 5; drop_reply = 5; reorder = 5; handler_done = true }

delivered : (process_req "end" connected connected draws).reply_ok ≡ true
unfolding process_req read_endname_info finish_req is_server_dead lookup
delivered = refl

wired :
    (is_enabled "end" connected ≡ true)
    × (connection "end" connected ≡ some "server")
    × (server_at "server" connected ≡ some 0)
unfolding lookup
wired = (refl, refl, refl)

process_req_sound_example :
    ((process_req "end" connected connected draws).executed ≡ true)
    × (is_enabled "end" connected ≡ true)
    × (is_enabled "end" connected ≡ true)
    × ((s : String) × (i : ℕ) × (connection "end" connected ≡ some s)
        × (server_at s connected ≡ some i)
        × (server_at s connected ≡ some i))
process_req_sound_example = process_req_sound "end" connected connected draws delivered

process_req_reliable_example : (process_req "end" connected connected draws).reply_ok ≡ true
process_req_reliable_example =
    process_req_reliable "end" "server" 0 connected connected draws refl wired.0 wired.1 wired.2
      refl wired.0 wired.2

abbrev get_method : Method
get_method = record {
  name = "Get";
  exported = true;
  num_in = 3;
  reply_is_ptr = true;
  num_out = 0;
  run = λ args. args;
}

abbrev split_name : String → String × String
split_name _ = ("KVServer", "Get")

dispatched :
    (dispatch split_name
      (add_service (make_service "KVServer" (get_method ∷ [])) make_server)
      "KVServer.Get"
      (7 ∷ [])).1
    ≡ some (7 ∷ [])
unfolding dispatch dispatch_method add_service make_service suitable_methods unsuitable lookup
    insert
dispatched = refl
