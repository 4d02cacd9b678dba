-- ===== src/Ingest/Convert.antt =====
-- internal/ingest/convert.go: copies between the stored entry and the message of the API. The fields
-- of the generated message are those of the stored entry, so one record stands for both; the random
-- part of `GenerateID` is a parameter.
use distributed_log_query_en.Prelude.{◌++◌}
use distributed_log_query_en.Prelude.Text.{Text, text}
use distributed_log_query_en.Types.{LogEntry}

unfoldable pub proto_to_entry : LogEntry → LogEntry
proto_to_entry pb = record {
  id = pb.id;
  timestamp = pb.timestamp;
  received_at = pb.received_at;
  namespace = pb.namespace;
  service = pb.service;
  level = pb.level;
  message = pb.message;
  fields = pb.fields;
}

unfoldable pub entry_to_proto : LogEntry → LogEntry
entry_to_proto e = record {
  id = e.id;
  timestamp = e.timestamp;
  received_at = e.received_at;
  namespace = e.namespace;
  service = e.service;
  level = e.level;
  message = e.message;
  fields = e.fields;
}

-- "auto-" and the hexadecimal digits of the random bytes.
unfoldable pub generate_id : Text → Text
generate_id random_hex = text "auto-" ++ random_hex
