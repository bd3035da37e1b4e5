-- ===== src/Persistence/Tests.antt =====
-- Runs of the file store of src/persistence.js on a disk with a staged text and a current one.
use codex_hooks.Base.{Outcome, String, [], ◌∷◌, ◌==◌, ok, throws, fault, if◌then◌else◌, refl, ◌≡◌}
use codex_hooks.Base.Exec.{◌>>=◌}
use codex_hooks.Protocol.Value.{Value, Items}
use codex_hooks.Daemon.Record.{object}
use codex_hooks.Persistence.Store.{
  FileSystem, FileState, FileStore, state_value, open_store, persist, write_state, on_disk,
}
use codex_hooks.Persistence.Reload.{IsRenamed, persist-open_store}

-- One file, and the text that was written beside it.
record Disk : Type 0 where
  staged : String
  current : String

abbrev kept_state : FileState
kept_state = record {
  events = object (("e1", Value.str "done") ∷ []);
  intents = object [];
  transitions = Items.cons (Value.str "sent") Items.nil;
  controls = object [];
}

abbrev one_file : FileSystem Disk
one_file = record {
  read_text = λ path d. (ok d.current, d);
  write_text = λ path text d. (ok tt, record d { staged = text });
  rename = λ from path d. (ok tt, record d { current = d.staged });
  make_directory = λ path d. (ok tt, d);
  directory_of = λ path. "state";
  process_id = "7";
  parse = λ text. if text == "kept" then ok (state_value kept_state) else throws (fault "bad JSON");
  print = λ value. "kept";
}

abbrev kept_store : FileStore Disk
kept_store = record {
  file_path = "state/hooks.json";
  state = kept_state;
  disk = record { staged = ""; current = "" };
}

one_file-IsRenamed : IsRenamed one_file
one_file-IsRenamed temporary path text d written moved = refl

abbrev reopened : Outcome (Unit {0}) × FileStore Disk
reopened = open_store one_file "state/hooks.json" (record { staged = "kept"; current = "kept" })

persist-open_store_example : (reopened.0 ≡ ok tt) × (reopened.1.state ≡ kept_state)
unfolding persist write_state on_disk ◌>>=◌
persist-open_store_example =
    persist-open_store one_file one_file-IsRenamed kept_store
      (record kept_store { disk = record { staged = "kept"; current = "kept" } })
      (record { has_events = refl; has_intents = refl; has_controls = refl }) refl refl refl
