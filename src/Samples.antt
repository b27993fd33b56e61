-- ===== src/Samples.antt =====
-- Sample objects, draws and writes for the tests and the witnesses.
use postgres_controller_back.Base.{Bool, true, false, none, some, [], ◌∷◌}
use postgres_controller_back.Base.Int.{pos}
use postgres_controller_back.Base.Text.{codes}
use postgres_controller_back.Json.{bool, obj, end}
use postgres_controller_back.Model.{
  Key, Resource, WriteRequest, StatusWriteRequest, ObjectWriteRequest,
}
use postgres_controller_back.Table.{Table}
use postgres_controller_back.Writer.Params.{WriteParams, Draw}

abbrev pub web_key : Key
web_key = record { gvk = codes "v1/Pod"; namespace = codes "default"; name = codes "web" }

abbrev pub job_key : Key
job_key = record { gvk = codes "v1/Pod"; namespace = codes "default"; name = codes "job" }

-- A live object at version 3.
abbrev pub web : Resource
web = record {
  key = web_key;
  uid = 7;
  txid_stamp = 100;
  object_version = 3;
  spec = obj end;
  status = obj end;
  metadata = obj end;
  deletion_timestamp = none;
  created_at = 10;
  updated_at = 20;
}

-- A tombstone.
abbrev pub job : Resource
job = record {
  key = job_key;
  uid = 9;
  txid_stamp = 101;
  object_version = 5;
  spec = obj end;
  status = obj end;
  metadata = obj end;
  deletion_timestamp = some 30;
  created_at = 11;
  updated_at = 30;
}

abbrev pub rows : Table
rows = web ∷ job ∷ []

abbrev pub draw : Draw
draw = record { txid = 110; now = 50; fresh_uid = 8; nanos = 0 }

abbrev pub next_draw : Draw
next_draw = record { txid = 111; now = 60; fresh_uid = 12; nanos = 0 }

-- An update of `web` that its spec, a flag, tells from what stands there.
abbrev pub set_flag : Bool → WriteParams
set_flag b = record {
  status_only = false;
  key = web_key;
  expected_version = pos 3;
  force_write = false;
  spec = some (bool b);
  status = none;
  metadata = some (obj end);
  deletion_timestamp = none;
}

abbrev pub set_status : StatusWriteRequest
set_status = record {
  key = web_key;
  status = some (bool true);
  expected_version = pos 3;
  force_write = false;
}

abbrev pub set_object : ObjectWriteRequest
set_object = record {
  key = web_key;
  spec = some (bool true);
  metadata = some (obj end);
  deletion_timestamp = none;
  deletion_nanos = 0;
  expected_version = pos 3;
  force_write = false;
}

-- A create.
abbrev pub create_at : Key → WriteParams
create_at k = record {
  status_only = false;
  key = k;
  expected_version = pos 0;
  force_write = false;
  spec = some (bool true);
  status = some (obj end);
  metadata = some (obj end);
  deletion_timestamp = none;
}

abbrev pub request : WriteRequest
request = record {
  key = web_key;
  spec = some (bool true);
  status = some (obj end);
  metadata = some (obj end);
  deletion_timestamp = none;
  deletion_nanos = 0;
  expected_version = pos 3;
  force_write = false;
}
