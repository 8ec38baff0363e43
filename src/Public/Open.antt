-- ===== src/Public/Open.antt =====
-- New of go/pkg/knirvbase/knirvbase.go: the database over a FileStorage, with the indexes that it
-- loads. The files below the directory are arguments, and so is what the network's start meets.
use knirvbase.Base.{String, Bool, Option, some, List, [], if◌then◌else◌, ◌==◌}
use knirvbase.Base.Int.{ℤ}
use knirvbase.Result.{Result, ok, err, wrap, ◌>>=◌}
use knirvbase.Floats.{Floats}
use knirvbase.Json.{Codec}
use knirvbase.Crypto.{Primitives}
use knirvbase.IndexManager.Files.{IndexCodec, MetadataFiles, load_indexes}
use knirvbase.Storage.{Disk}
use knirvbase.Storage.Files.{new_file_storage}
use knirvbase.Storage.Instance.{file_store}
use knirvbase.Database.{new_distributed_database}
use knirvbase.Public.{Db}

pub record Options : Type 0 where
  pub data_dir : String
  pub distributed_enabled : Bool
  pub distributed_network_id : String
  pub distributed_bootstrap_peers : List String

module _ (p : Primitives) (fl : Floats) (c : Codec fl.Float p.Byte) (disk : Disk p fl c) (now : ℤ)
    (seeds : String → p.Seed × p.Seed) (writer_waits : String → Bool)
    (codec : IndexCodec fl.Float p.Byte) where
  open p use {Byte}

  -- New, with the addresses that are dialled
  unfoldable pub new :
      Option String
      → String
      → Bool
      → Options
      → List (String × List (String × List Byte))
      → List (String × List Byte)
      → MetadataFiles Byte
      → Result (Db fl (file_store p fl c disk now seeds writer_waits) Byte × List String)
  unfolding new_file_storage load_indexes new_distributed_database
  new failed own_id context_nil opts documents blobs files =
      if opts.data_dir == ""
      then err "DataDir cannot be empty"
      else if context_nil
      then err "context cannot be nil"
      else (do
        inner ← wrap "failed to create distributed database" (
            new_distributed_database fl (file_store p fl c disk now seeds writer_waits) Byte failed
              own_id
              (record {
                enabled = opts.distributed_enabled;
                network_id = opts.distributed_network_id;
                bootstrap_peers = opts.distributed_bootstrap_peers;
              })
              (new_file_storage p fl c opts.data_dir documents blobs
                (load_indexes fl codec files [])))
        ok (record { db = some (inner.0) }, inner.1))
