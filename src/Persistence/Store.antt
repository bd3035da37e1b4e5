-- ===== src/Persistence/Store.antt =====
-- src/persistence.js: `JsonStateStore`. The file system, JSON and the name of a temporary file are
-- handed in.
use codex_hooks.Base.{
  String, List, [], ◌∷◌, ◌==◌, concat, if◌then◌else◌, or_else, is_blank, require, fault, Fault,
  Outcome, ok, throws,
}
use codex_hooks.Base.Exec.{Exec, pure, raise, lift, on_outcome, ◌>>=◌, ◌>>◌}
use codex_hooks.Protocol.Value.{Value, Fields, Items, get, is_object, set_field}
use codex_hooks.Daemon.Record.{object}

-- `fs`, `path.dirname`, the process's id, `JSON.parse` and the text that `JSON.stringify` writes with
-- a newline at its end.
pub record FileSystem (D : Type 0) : Type 0 where
  pub read_text : String → D → Outcome String × D
  pub write_text : String → String → D → Outcome (Unit {0}) × D
  pub rename : String → String → D → Outcome (Unit {0}) × D
  pub make_directory : String → D → Outcome (Unit {0}) × D
  pub directory_of : String → String
  pub process_id : String
  pub parse : String → Outcome Value
  pub print : Value → String

-- `this.state`
pub record FileState : Type 0 where
  pub events : Value
  pub intents : Value
  pub transitions : Items
  pub controls : Value

abbrev pub empty_state : FileState
empty_state = record {
  events = object [];
  intents = object [];
  transitions = Items.nil;
  controls = object [];
}

-- `this`, and what the file system works on.
pub record FileStore (D : Type 0) : Type 0 where
  pub file_path : String
  pub state : FileState
  pub disk : D

abbrev pub state_value : FileState → Value
state_value s = object (
    ("events", s.events)
    ∷ ("intents", s.intents)
    ∷ ("transitions", Value.arr s.transitions)
    ∷ ("controls", s.controls)
    ∷ [])

-- `value && typeof value === "object" ? value : {}`
abbrev pub object_or_empty : Value → Value
object_or_empty value = if is_object value then value else object []

-- `Array.isArray(value) ? value : []`
abbrev pub items_or_empty : Value → Items
items_or_empty (Value.arr items) = items
items_or_empty value = Items.nil

-- The state that a parsed file holds.
unfoldable pub loaded : Value → FileState
loaded parsed = record {
  events = object_or_empty (get parsed "events");
  intents = object_or_empty (get parsed "intents");
  transitions = items_or_empty (get parsed "transitions");
  controls = object_or_empty (get parsed "controls");
}

-- `object[key] = value`; on an array from the file, JSON prints no such field.
unfoldable pub with_key : String → Value → Value → Value
with_key key value (Value.obj fs) = Value.obj (set_field key value fs)
with_key key value v = v

-- `list.push(value)`
unfoldable pub pushed : Value → Items → Items
pushed value Items.nil = Items.cons value Items.nil
pushed value (Items.cons v more) = Items.cons v (pushed value more)

module _ {D : Type 0} (files : FileSystem D) where
  unfoldable pub on_disk : {A : Type 0} → (D → Outcome A × D) → Exec (FileStore D) A
  on_disk f t = let (r, d) = f t.disk in (r, record t { disk = d })

  unfoldable pub set_state : FileState → Exec (FileStore D) Unit
  set_state s t = (ok tt, record t { state = s })

  -- The `try` block of `load`, once the text is read.
  unfoldable pub take_text : String → Exec (FileStore D) Unit
  take_text text = do
    parsed ← lift (files.parse text)
    lift (require (is_object parsed) (fault "state file must contain an object"))
    set_state (loaded parsed)

  -- The `catch` block of `load`: a file that does not exist is no error.
  unfoldable pub load_failed : Fault → Exec (FileStore D) Unit
  load_failed e =
      if or_else e.code "" == "ENOENT"
      then pure tt
      else raise (fault (concat ("cannot load state file: " ∷ e.message ∷ [])))

  unfoldable pub after_load : Outcome (Unit {0}) → Exec (FileStore D) Unit
  after_load (ok u) = pure tt
  after_load (throws e) = load_failed e

  unfoldable pub read_state : Exec (FileStore D) Unit
  read_state t = (on_disk (files.read_text t.file_path) >>= take_text) t

  unfoldable pub load : Exec (FileStore D) Unit
  load = on_outcome read_state after_load

  -- `new JsonStateStore(filePath)`
  unfoldable pub open_store : String → D → Outcome (Unit {0}) × FileStore D
  open_store path d =
      if is_blank path
      then (
        throws (fault "state file path is required"),
        record { file_path = path; state = empty_state; disk = d },
      )
      else load (record { file_path = path; state = empty_state; disk = d })

  abbrev pub temporary_path : String → String
  temporary_path path = concat (path ∷ ".tmp-" ∷ files.process_id ∷ [])

  unfoldable pub write_state : String → FileState → Exec (FileStore D) Unit
  write_state path s = do
    on_disk (files.make_directory (files.directory_of path))
    on_disk (files.write_text (temporary_path path) (files.print (state_value s)))
    on_disk (files.rename (temporary_path path) path)

  unfoldable pub persist : Exec (FileStore D) Unit
  persist t = write_state t.file_path t.state t

  unfoldable pub change : (FileState → FileState) → Exec (FileStore D) Unit
  change f t = persist (record t { state = f t.state })

  unfoldable pub put_event : String → Value → Exec (FileStore D) Unit
  put_event key value = change (λ s. record s { events = with_key key value s.events })

  unfoldable pub put_intent : String → Value → Exec (FileStore D) Unit
  put_intent key value = change (λ s. record s { intents = with_key key value s.intents })

  unfoldable pub put_control : String → Value → Exec (FileStore D) Unit
  put_control key value = change (λ s. record s { controls = with_key key value s.controls })

  unfoldable pub record_transition : Value → Exec (FileStore D) Unit
  record_transition value = change (λ s. record s { transitions = pushed value s.transitions })

-- `this.state.events[key]`, and the like for intents and controls
abbrev pub get_event : String → FileState → Value
get_event key s = get s.events key

abbrev pub get_intent : String → FileState → Value
get_intent key s = get s.intents key

abbrev pub get_control : String → FileState → Value
get_control key s = get s.controls key

-- `Object.values(this.state.intents)`
abbrev pub field_values : Fields → List Value
field_values Fields.end = []
field_values (Fields.field k v more) = v ∷ field_values more

abbrev pub list_intents : FileState → List Value
list_intents s = elim s.intents [ Value.obj fs ↦ field_values fs | _ ↦ [] ]
