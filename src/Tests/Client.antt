-- ===== src/Tests/Client.antt =====
-- The theorems of Client at a log of one resource.
use peerstore.Base.{ℕ, ◌≡◌, refl, string_eq, none, some, [], ◌∷◌}
use peerstore.Base.Dict.{lookup}
use peerstore.Base.{suc, true, false}
use peerstore.Base.Result.{ok}
use peerstore.Protocol.Message.{zero_header, success}
use peerstore.Protocol.Transport.{new_transport}
use peerstore.Client.Requests.{Net, Machine, Codecs, open_transport}
use peerstore.Client.Log.{get_transaction_log}
use peerstore.Client.Files.{synchronize}
use peerstore.Client.Files.Settled.{synchronize_settled}
use peerstore.Tests.Instances.{own_key}
use peerstore.Models.Node.{zero_identifier, zero_node}
use peerstore.Models.TransactionLog.{update, Entry, Entity, TransactionLog}
use peerstore.Client.Sync.{last_entry, last_loop}

abbrev updated_at : ℕ → Entry
updated_at time = record { operation = update; client_id = zero_identifier; timestamp = time }

abbrev report : Entity
report = record {
  resource_name = "report";
  resource_id = zero_identifier;
  entries = updated_at 4 ∷ updated_at 6 ∷ [];
}

abbrev log : TransactionLog
log = ("report", report) ∷ []

report-there : lookup "report" log ≡ some report
unfolding lookup
report-there = refl

-- A network whose every answer is the log, and counts the requests
abbrev log_net : Net ℕ
log_net = record {
  dial = λ addr w. (true, w);
  trip = λ t r w. (ok (record { header = zero_header; status = success; body = [] }), suc w);
}

abbrev log_codecs : Codecs
log_codecs = record {
  sha1 = λ b. b;
  text = λ s. [];
  gob_key = λ k. [];
  encode_id = λ id. id;
  decode_node = λ b. (zero_node, true);
  encode_log = λ tl. none;
  decode_log = λ b. some log;
}

abbrev no_machine : Machine ℕ
no_machine = record {
  read_file = λ path w. none;
  write_file = λ path b w. (false, w);
  remove_file = λ path w. w;
  make_dir = λ path w. w;
  clock = λ w. 0;
  set_clock = λ n w. w;
}

-- Two requests read the log, and nothing else is sent.
synchronize_settled_example :
    synchronize log_net no_machine log_codecs
      (λ p. p)
      own_key
      zero_identifier
      ("report" ∷ [])
      zero_node
      log
      0
    ≡ (ok log, 2)
unfolding get_transaction_log open_transport new_transport lookup last_entry last_loop
synchronize_settled_example =
    synchronize_settled log_net no_machine log_codecs (λ p. p) own_key zero_identifier
      ("report" ∷ []) zero_node log 0 2 refl ((report, refl), tt) ((refl, updated_at 6, refl), tt)
