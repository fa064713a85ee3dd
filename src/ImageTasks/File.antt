-- ===== src/ImageTasks/File.antt =====
-- `_load_locked`: the tasks of the file. `stamp` is the time of the restart, and `to_int` is Python's
-- `int`, `none` where it raises.
pub mod Restart
use jove_mage.Prelude.{
  String, Bool, true, false, not, ◌&&◌, ◌||◌, Option, none, some, List, [], ◌∷◌, min, max, str_eq,
  if◌then◌else◌, strip, Dict, get, put, ℤ, pos, pos_part, Value, Items, Fields,
}
use jove_mage.Failures.Codes.{field_of}
use jove_mage.Failures.Read.{mapping, is_mapping, or_value, text_of}
use jove_mage.ImageTasks.{
  Status, queued, running, success, error, Task, task_detail_keys, is_missing,
}
use jove_mage.ImageTasks.Methods.{task_key}

-- The status of a text; an unknown one is an error.
unfoldable pub read_status : String → Status
read_status text =
    if str_eq text "queued"
    then queued
    else if str_eq text "running"
    then running
    else if str_eq text "success"
    then success
    else error

-- value == "edit"
unfoldable pub is_edit : Value → Bool
is_edit (Value.str s) = str_eq s "edit"
is_edit Value.null = false
is_edit (Value.bool b) = false
is_edit (Value.int n) = false
is_edit (Value.float m e) = false
is_edit (Value.list xs) = false
is_edit (Value.dict fs) = false

-- `_copy_task_details`, for some of the keys.
unfoldable pub copy_details : List String → Fields → Dict Value → Dict Value
unfolding field_of is_missing
copy_details [] source target = target
copy_details (key ∷ keys) source target =
    copy_details keys source
      (if is_missing (field_of source key) then target else put target key (field_of source key))

unfoldable pub put_list : String → Value → Dict Value → Dict Value
put_list key (Value.list xs) fields = put fields key (Value.list xs)
put_list key Value.null fields = fields
put_list key (Value.bool b) fields = fields
put_list key (Value.int n) fields = fields
put_list key (Value.float m e) fields = fields
put_list key (Value.str s) fields = fields
put_list key (Value.dict fs) fields = fields

unfoldable pub put_mapping : String → Value → Dict Value → Dict Value
put_mapping key (Value.dict fs) fields = put fields key (Value.dict fs)
put_mapping key Value.null fields = fields
put_mapping key (Value.bool b) fields = fields
put_mapping key (Value.int n) fields = fields
put_mapping key (Value.float m e) fields = fields
put_mapping key (Value.str s) fields = fields
put_mapping key (Value.list xs) fields = fields

unfoldable pub put_text : String → String → Dict Value → Dict Value
put_text key text fields = if str_eq text "" then fields else put fields key (Value.str text)

module _ (show : Value → String) (parses : String → Bool) (to_int : Value → Option ℤ)
    (stamp : String) where
  -- `_clean`
  unfoldable pub clean : Value → String → String
  unfolding or_value text_of strip
  clean value default = strip (text_of show parses (or_value value (Value.str default)))

  -- `_image_count`
  unfoldable pub image_count : Value → Value
  unfolding or_value
  image_count value = elim (to_int (or_value value (Value.int (pos 1)))) [
    | none ↦ Value.int (pos 1)
    | some n ↦ Value.int (pos (min 4 (max 1 (pos_part n))))
  ]

  -- The keys of a task that every file gives.
  unfoldable pub base_fields : Fields → Dict Value
  unfolding field_of clean image_count is_edit
  base_fields item =
      ("id", Value.str (clean (field_of item "id") ""))
      ∷ ("mode", Value.str (if is_edit (field_of item "mode") then "edit" else "generate"))
      ∷ ("model", Value.str (clean (field_of item "model") "gpt-image-2"))
      ∷ ("n", image_count (field_of item "n"))
      ∷ ("size", Value.str (clean (field_of item "size") ""))
      ∷ ("quality", Value.str (clean (field_of item "quality") "auto"))
      ∷ ("created_at", Value.str (clean (field_of item "created_at") stamp))
      ∷ ("created_ts", field_of item "created_ts")
      ∷ ("updated_ts", field_of item "updated_ts")
      ∷ ("started_ts", field_of item "started_ts")
      ∷ ("duration_ms", field_of item "duration_ms")
      ∷ []

  unfoldable pub load_task : Fields → Task
  unfolding base_fields copy_details put_list put_mapping put_text read_status clean
      task_detail_keys
  load_task item = record {
    status = read_status (clean (field_of item "status") "");
    owner_id = clean (field_of item "owner_id") "";
    updated_at = clean (field_of item "updated_at") (clean (field_of item "created_at") stamp);
    fields = copy_details task_detail_keys item (
        put_text "error" (clean (field_of item "error") "") (
          put_mapping "usage" (field_of item "usage")
            (put_list "data" (field_of item "data") (base_fields item))));
  }

  -- One item of the file.
  unfoldable pub load_item : Value → Dict Task → Dict Task
  unfolding load_task clean mapping is_mapping task_key
  load_item value tasks =
      let item = mapping value in
      let task_id = clean (field_of item "id") "" in
      let owner = clean (field_of item "owner_id") "" in
      if not (is_mapping value) || str_eq task_id "" || str_eq owner ""
      then tasks
      else put tasks (task_key owner task_id) (load_task item)

  unfoldable pub load_items : Items → Dict Task → Dict Task
  unfolding load_item
  load_items Items.nil tasks = tasks
  load_items (Items.cons x xs) tasks = load_items xs (load_item x tasks)

  unfoldable pub load_list : Value → Dict Task
  unfolding load_items
  load_list (Value.list xs) = load_items xs []
  load_list Value.null = []
  load_list (Value.bool b) = []
  load_list (Value.int n) = []
  load_list (Value.float m e) = []
  load_list (Value.str s) = []
  load_list (Value.dict fs) = []

  -- `_load_locked`, of what the file holds.
  unfoldable pub load : Value → Dict Task
  unfolding load_list is_mapping mapping field_of
  load raw = load_list (if is_mapping raw then field_of (mapping raw) "tasks" else raw)
