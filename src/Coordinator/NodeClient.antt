-- ===== src/Coordinator/NodeClient.antt =====
-- internal/coordinator/node_client.go: the connections to the storage nodes, by address. A
use distributed_log_query_en.Prelude.PathSet.{contains}
use distributed_log_query_en.Prelude.Text.{text_key, Text}
use distributed_log_query_en.Prelude.{false, ◌∷◌, true, if◌then◌else◌, Bool, [], List}

-- connection is made at its first use and kept.

pub record NodeClientPool : Type 0 where
  pub clients : List Text

abbrev pub new_node_client_pool : NodeClientPool
new_node_client_pool = record { clients = [] }

-- Whether there is a connection to the address, and the pool then. `dial` says which addresses
-- grpc.NewClient takes.
unfoldable pub get_client : (Text → Bool) → Text → NodeClientPool → Bool × NodeClientPool
get_client dial addr p =
    if contains p.clients addr
    then (true, p)
    else if dial addr
    then (true, record { clients = addr ∷ p.clients })
    else (false, p)
