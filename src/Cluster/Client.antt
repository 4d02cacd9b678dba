-- ===== src/Cluster/Client.antt =====
-- internal/cluster/client.go: the connection of a storage node to the coordinators. `dial` says
-- whether `grpc.NewClient` makes a client for an address. A failed dial leaves the closed connection.
pub mod Laws
use distributed_log_query_en.Prelude.{
  ◌++◌, nat_eqb, ◌&&◌, ℕ, zero, suc, ◌+◌, ◌*◌, ◌%◌, Bool, true, false, Option, none, some, List, [],
  ◌∷◌, length, not, ◌==◌, if◌then◌else◌,
}
use distributed_log_query_en.Prelude.Text.{trim_space, Text, text_key, is_space}
use distributed_log_query_en.Prelude.Int.{ℤ}
use distributed_log_query_en.Prelude.Result.{Result, ok, err}
use distributed_log_query_en.Rpc.{Code}
use distributed_log_query_en.Cluster.Wire.{shard_list}

pub record ClusterClient : Type 0 where
  pub addrs : List Text
  pub idx : ℕ
  -- the address of the open connection
  pub conn : Option Text
  pub node_id : Text

pub data ClientError : Type 0 where
  no_addresses no_leader expired : ClientError
  dial_failed : Text → ClientError
  call_failed : Code → ClientError

-- strings.Split(s, ",")
unfoldable pub split_comma : Text → Text → List Text
split_comma cur [] = cur ∷ []
split_comma cur (c ∷ s) =
    if nat_eqb c b',' then cur ∷ split_comma [] s else split_comma (cur ++ c ∷ []) s

unfoldable pub trim_parts : List Text → List Text
unfolding trim_space
trim_parts [] = []
trim_parts (a ∷ parts) =
    let rest = trim_parts parts in if trim_space a == [] then rest else trim_space a ∷ rest

unfoldable pub parse_addrs : Text → List Text
unfolding trim_parts split_comma
parse_addrs s = trim_parts (split_comma [] s)

-- addrs[i], where i is below the length
unfoldable pub addr_at : List Text → ℕ → Text
addr_at [] i = []
addr_at (a ∷ addrs) zero = a
addr_at (a ∷ addrs) (suc i) = addr_at addrs i

-- The codes on which the next coordinator is tried.
unfoldable pub rotates : Code → Bool
rotates Code.failed_precondition = true
rotates Code.unavailable = true
rotates _ = false

-- The error of a heartbeat at the open connection; on a closed one gRPC answers Canceled.
abbrev pub heartbeat_at : (Text → Option Code) → Option Text → Option Code
heartbeat_at answer none = some Code.canceled_call
heartbeat_at answer (some addr) = answer addr

abbrev pub register_at : (Text → Result Code (List ℤ)) → Option Text → Result Code (List ℤ)
register_at answer none = err Code.canceled_call
register_at answer (some addr) = answer addr

module _ (dial : Text → Bool) where
  unfoldable pub connect_to : Text → ClusterClient → Option ClientError × ClusterClient
  connect_to addr c =
      if dial addr
      then (none, record c { conn = some addr })
      else (some (dial_failed addr), record c { conn = none })

  unfoldable pub new_cluster_client : List Text → Text → Result ClientError ClusterClient
  unfolding connect_to
  new_cluster_client [] node_id = err no_addresses
  new_cluster_client (a ∷ addrs) node_id =
      let (failed, c) =
        connect_to a (record { addrs = a ∷ addrs; idx = 0; conn = none; node_id = node_id }) in
      elim failed [ some e ↦ err e | none ↦ ok c ]

  unfoldable pub advance_and_reconnect : ClusterClient → Option ClientError × ClusterClient
  unfolding addr_at connect_to
  advance_and_reconnect c =
      let next = (c.idx + 1) % length c.addrs in
      connect_to (addr_at c.addrs next) (record c { idx = next })

  -- The loop of `SendHeartbeat`, with the error that each coordinator answers when that many attempts
  -- are left after the present one.
  unfoldable pub beat :
      (ℕ → Text → Option Code) → ℕ → ClusterClient → Option ClientError × ClusterClient
  beat answers zero c = (some no_leader, c)
  beat answers (suc attempts) c = elim (heartbeat_at (answers attempts) c.conn) [
    | none ↦ (none, c)
    | some code ↦ elim (rotates code) [
      | false ↦ (some (call_failed code), c)
      | true ↦
          let (failed, c') = advance_and_reconnect c in
          elim failed [ some e ↦ (some e, c') | none ↦ beat answers attempts c' ]
    ]
  ]

  unfoldable pub send_heartbeat :
      (ℕ → Text → Option Code) → ClusterClient → Option ClientError × ClusterClient
  unfolding beat
  send_heartbeat answers c = beat answers (length c.addrs * 2) c

  -- `Register`, in a context that ends in the wait after that many turns of the loop.
  unfoldable pub register :
      (ℕ → Text → Result Code (List ℤ))
      → ℕ
      → ClusterClient
      → Result ClientError (List ℕ) × ClusterClient
  register answers zero c = (err expired, c)
  register answers (suc turns) c = elim (register_at (answers turns) c.conn) [
    | ok shards ↦ (ok (shard_list shards), c)
    | err code ↦ elim (rotates code) [
      | false ↦ (err (call_failed code), c)
      | true ↦
          let (failed, c') = advance_and_reconnect c in
          elim failed [ some e ↦ (err e, c') | none ↦ register answers turns c' ]
    ]
  ]
