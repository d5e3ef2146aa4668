-- ===== src/Models/Rows.antt =====
-- The rows of server/django/sensordata/models.py. A row's key stands beside it in its table; a
-- foreign key is the other row's key. Times are milliseconds.
use flownexus.Prelude.{ℕ, String, Bool, Option, List, text_key}
use flownexus.Prelude.Int.{ℤ, pos}

-- The columns of `django.contrib.auth` users that the source reads or sets.
pub record User : Type 0 where
  pub username : String
  pub email : String
  pub is_superuser : Bool
  pub is_staff : Bool

pub record Site : Type 0 where
  pub name : String
  pub description : String
  pub is_active : Bool
  pub created_at : ℕ

pub data Role : Type 0 where
  admin user : Role

-- `PERMISSION_FIELDS`
pub data Permission : Type 0 where
  can_view_overview can_view_firmware can_view_data_analysis : Permission
  can_manage_firmware can_perform_operations can_manage_devices : Permission

-- The six permission columns of a membership.
pub record Permissions : Type 0 where
  pub view_overview : Bool
  pub view_firmware : Bool
  pub view_data_analysis : Bool
  pub manage_firmware : Bool
  pub perform_operations : Bool
  pub manage_devices : Bool

-- `getattr(membership, permission_name)`
abbrev pub allows : Permissions → Permission → Bool
allows p can_view_overview = p.view_overview
allows p can_view_firmware = p.view_firmware
allows p can_view_data_analysis = p.view_data_analysis
allows p can_manage_firmware = p.manage_firmware
allows p can_perform_operations = p.perform_operations
allows p can_manage_devices = p.manage_devices

pub record SiteMembership : Type 0 where
  pub member : ℕ
  pub site : ℕ
  pub role : Role
  pub permissions : Permissions
  pub joined_at : ℕ

pub record Endpoint : Type 0 where
  pub registered : Bool
  pub site : Option ℕ

-- `TYPE_CHOICES`, `NONE` (an executable resource) and any other text, which the column also holds.
pub data DataType : Type 0 where
  time string opaque integer float boolean none_type : DataType
  other : String → DataType

pub record ResourceType : Type 0 where
  pub object_id : ℤ
  pub resource_id : ℤ
  pub name : String
  pub data_type : DataType

-- A float column holds the text that `float` read: the source only stores and shows such values.
pub record Resource : Type 0 where
  pub endpoint : String
  pub resource_type : ℕ
  pub int_value : Option ℤ
  pub float_value : Option String
  pub str_value : Option String
  pub binary_value : Option (List ℕ)
  pub timestamp_created : ℕ

pub record Event : Type 0 where
  pub endpoint : String
  pub event_type : List ℕ
  pub time : ℕ

pub record EventResource : Type 0 where
  pub event : ℕ
  pub resource : ℕ

pub data Status : Type 0 where
  sending queued confirmed failed : Status

pub record EndpointOperation : Type 0 where
  pub resource : ℕ
  pub operation_type : String
  pub instance_id : ℕ
  pub status : Status
  pub transmit_counter : ℕ
  pub timestamp_created : ℕ
  pub last_attempt : Option ℕ

-- A stored file: the URL that the storage serves it under, and its length.
pub record File : Type 0 where
  pub url : String
  pub size : ℕ

pub record Firmware : Type 0 where
  pub version : String
  pub created_at : ℕ
  pub binary : Option File
  pub is_deleted : Bool

-- `state` and `result` hold any integer: the choices are not enforced by `save`.
pub record FirmwareUpdate : Type 0 where
  pub endpoint : String
  pub firmware : ℕ
  pub state : ℤ
  pub result : ℤ
  pub timestamp_created : ℕ
  pub timestamp_updated : ℕ
  pub send_uri_operation : Option ℕ
  pub execute_operation : Option ℕ

abbrev pub state_idle : ℤ
state_idle = pos 0

abbrev pub state_downloading : ℤ
state_downloading = pos 1

abbrev pub state_downloaded : ℤ
state_downloaded = pos 2

abbrev pub state_updating : ℤ
state_updating = pos 3

abbrev pub result_default : ℤ
result_default = pos 0

abbrev pub result_success : ℤ
result_success = pos 1

abbrev pub result_update_failed : ℤ
result_update_failed = pos 8

-- A Celery task that `delay` has put on the broker's queue.
pub data Task : Type 0 where
  send_operation : ℕ → Task
  read_device_object : String → Task
  process_pending_operations : String → Task
