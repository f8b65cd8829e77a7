-- ===== src/Resources/Models.antt =====
-- `Resource` and the functions that make one, of core/resources/models.py. A value of `metadata`
-- or `connection_info` is a text or None. Of the time stamps, the fields `last_seen` and
-- `registered_at` are numbers, and an ISO text in `metadata` is an argument.
use core_host.Base.{ℕ, String, Option, none, some, List, [], if◌then◌else◌, Result, ok, err, ◌==◌}
use core_host.Base.Dict.{Dict, insert, has}

pub record Resource : Type 0 where
  pub resource_id : String
  pub name : String
  pub resource_type : String
  pub status : String
  pub owner : Option String
  pub source : Option String
  pub capabilities : List String
  pub metadata : Dict (Option String)
  pub connection_info : Dict (Option String)
  pub last_seen : Option ℕ
  pub registered_at : ℕ

-- `raise ValueError`, with the name of the field that is empty
pub data ValueError : Type 0 where
  empty : String → ValueError

-- `meta.setdefault(key, value)`
unfoldable pub set_default : String → Option String → Dict (Option String) → Dict (Option String)
set_default k v d = if has k d then d else insert k v d

-- `if value is not None: meta[key] = value`
unfoldable pub set_given : String → Option String → Dict (Option String) → Dict (Option String)
set_given k none d = d
set_given k (some v) d = insert k (some v) d

unfoldable pub create_device_resource :
    (now : ℕ) (now_text device_id name device_type platform : String)
    → List String
    → (status : String) (assigned_agent : Option String)
    → (connection_info metadata : Dict (Option String)) → Result ValueError Resource
create_device_resource now now_text device_id name device_type platform capabilities status
      assigned_agent connection_info metadata =
    if device_id == ""
    then err (empty "device_id")
    else if name == ""
    then err (empty "name")
    else ok (record {
      resource_id = device_id;
      name = name;
      resource_type = "device";
      status = status;
      owner = none;
      source = none;
      capabilities = capabilities;
      metadata = set_default "connection_time" (some now_text) (
          set_given "assigned_agent" assigned_agent (
            set_default "platform" (some platform)
              (set_default "device_type" (some device_type) metadata)));
      connection_info = connection_info;
      last_seen = none;
      registered_at = now;
    })

unfoldable pub create_agent_resource :
    (now : ℕ) (now_text agent_id name agent_type version host : String)
    → (target_device : Option String) (status : String) → List String
    → Dict (Option String)
    → Result ValueError Resource
create_agent_resource now now_text agent_id name agent_type version host target_device status
      capabilities metadata =
    if agent_id == ""
    then err (empty "agent_id")
    else if name == ""
    then err (empty "name")
    else ok (record {
      resource_id = agent_id;
      name = name;
      resource_type = "agent";
      status = status;
      owner = none;
      source = none;
      capabilities = capabilities;
      metadata = set_default "start_time" (some now_text) (
          set_given "target_device" target_device (
            set_default "host" (some host) (
              set_default "version" (some version)
                (set_default "agent_type" (some agent_type) metadata))));
      connection_info = [];
      last_seen = none;
      registered_at = now;
    })
