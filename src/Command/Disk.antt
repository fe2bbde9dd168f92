-- ===== src/Command/Disk.antt =====
-- What a file system promises: a disk, and what each operation makes of it, beside the stream.
use crab_rs.Prelude.{
  ℕ, ◌≡◌, subst, String, Bool, true, false, ◌||◌, Option, none, some, [], ◌++◌, length, ok, str_eq,
  if◌then◌else◌, refl,
}
use crab_rs.Prelude.Bytes.{Bytes}
use crab_rs.Message.{Method, AckMessage, option_none}
use crab_rs.Transport.{Transport, Codec, IsReliable}
use crab_rs.Stream.{frame, write_message, read_ack}
use crab_rs.Stream.RoundTrip.{write_message-frame}
use crab_rs.Stream.Arrived.{read_ack-arrived}
use crab_rs.Stream.Keeps.{KeptByStream, write_message-Keeps, read_ack-Keeps}
use crab_rs.Command.Files.{FileSystem, Metadata}
use crab_rs.Command.Remote.{AckEncodes}

-- The bytes of each file, which paths are directories, the file that is open for writing, and what
-- is to be read of the file that is open for reading.
pub record Disk : Type 0 where
  pub files : String → Option Bytes
  pub dirs : String → Bool
  pub created : String
  pub opened : Bytes

unfoldable pub set : String → Option Bytes → (String → Option Bytes) → String → Option Bytes
set p content files q = if str_eq q p then content else files q

abbrev pub is_some : Option Bytes → Bool
is_some none = false
is_some (some _) = true

abbrev pub exists_in : Disk → String → Bool
exists_in d p = d.dirs p || is_some (d.files p)

abbrev pub create : String → Disk → Disk
create p d = record {
  files = set p (some []) d.files;
  dirs = d.dirs;
  created = p;
  opened = d.opened;
}

abbrev pub fill : Bytes → Disk → Disk
fill bytes d = record {
  files = set d.created (some bytes) d.files;
  dirs = d.dirs;
  created = d.created;
  opened = d.opened;
}

abbrev pub move : String → String → Disk → Disk
move p q d = record {
  files = set q (d.files p) (set p none d.files);
  dirs = d.dirs;
  created = d.created;
  opened = d.opened;
}

abbrev pub load : Bytes → Disk → Disk
load bytes d = record { files = d.files; dirs = d.dirs; created = d.created; opened = bytes }

module _ {W : Type 0} ⦃t : Transport W⦄ (R : IsReliable t) where
  -- The stream of one world is that of another.
  abbrev pub SameStream : W → W → Type 0
  SameStream w w' =
      (R.inbox w' ≡ R.inbox w) × (R.outbox w' ≡ R.outbox w) × (R.writable w' ≡ R.writable w)

  -- A file system that does on its disk what is asked of it, where that can be done. The copy from
  -- a stream takes all that arrives on it.
  pub record IsStore (fs : FileSystem W) : Type 0 where
    pub view : W → Disk
    pub by_stream : (d : Disk) → KeptByStream t (λ w. view w ≡ d)
    -- Whether a file may stand at a path, where these are the directories.
    pub is_place : (String → Bool) → String → Bool
    pub try_exists_ok : (p : String) (w : W) → fs.try_exists p w ≡ (ok (exists_in (view w) p), w)
    pub metadata_dir :
        (p : String) (w : W)
        → (view w).dirs p ≡ true
        → (m : Metadata) × (fs.metadata p w ≡ (ok m, w)) × (m.is_dir ≡ true)
    pub metadata_file :
        (p : String) (bytes : Bytes) (w : W)
        → (view w).files p ≡ some bytes
        → (view w).dirs p ≡ false
        → (m : Metadata) × (fs.metadata p w ≡ (ok m, w)) × (m.len ≡ length bytes)
    pub create_file_ok :
        (p : String) (w : W)
        → is_place (view w).dirs p ≡ true
        → (w' : W) × (fs.create_file p w ≡ (ok tt, w'))
          × (view w' ≡ create p (view w))
          × SameStream w w'
    pub open_file_ok :
        (p : String) (bytes : Bytes) (w : W)
        → (view w).files p ≡ some bytes
        → (w' : W) × (fs.open_file p w ≡ (ok tt, w'))
          × (view w' ≡ load bytes (view w))
          × SameStream w w'
    pub rename_ok :
        (p q : String) (bytes : Bytes) (w : W)
        → (view w).files p ≡ some bytes
        → is_place (view w).dirs q ≡ true
        → (w' : W) × (fs.rename p q w ≡ (ok tt, w'))
          × (view w' ≡ move p q (view w))
          × SameStream w w'
    pub copy_from_stream_ok :
        (w : W)
        → (w' : W) × (fs.copy_from_stream w ≡ (ok (length (R.inbox w)), w'))
          × (view w' ≡ fill (R.inbox w) (view w))
          × (R.inbox w' ≡ [])
          × (R.outbox w' ≡ R.outbox w)
          × (R.writable w' ≡ R.writable w)
    pub copy_to_stream_ok :
        (w : W)
        → R.writable w ≡ true
        → (w' : W) × (fs.copy_to_stream w ≡ (ok (length (view w).opened), w'))
          × (view w' ≡ view w)
          × (R.outbox w' ≡ R.outbox w ++ (view w).opened)
    pub finish_ok : (w : W) → (view (fs.finish w) ≡ view w) × (R.outbox (fs.finish w) ≡ R.outbox w)

  module _ ⦃ack : Codec AckMessage⦄ {fs : FileSystem W} (S : IsStore fs) where
    -- Messages leave the disk as it is.
    pub write_message-kept :
        {M : Type 0} (c : Codec M) (method : Method) (option : ℕ) (m : M) (payload : Bytes) (w : W)
        → c.encode m ≡ some payload
        → R.writable w ≡ true
        → (w' : W) × (write_message c method option m w ≡ (ok tt, w'))
          × (S.view w' ≡ S.view w)
          × (R.inbox w' ≡ R.inbox w)
          × (R.outbox w' ≡ R.outbox w ++ frame method option payload)
          × (R.writable w' ≡ true)
    write_message-kept c method option m payload w enc x =
        let (w', e, i, o, y) = write_message-frame R c method option m payload w enc x in
        let kept = (write_message-Keeps (S.by_stream (S.view w)) c method option m).at w refl in
        (w', e, subst (λ p. S.view p.1 ≡ S.view w) e kept, i, o, y)

    pub read_ack-kept :
        (method : Method) (payload rest : Bytes) (w : W)
        → AckEncodes ack payload
        → R.inbox w ≡ frame method option_none payload ++ rest
        → (w' : W) × (read_ack w ≡ (ok tt, w'))
          × (S.view w' ≡ S.view w)
          × (R.inbox w' ≡ rest)
          × (R.outbox w' ≡ R.outbox w)
          × (R.writable w' ≡ R.writable w)
    read_ack-kept method payload rest w acks arrived =
        let (w', e, i, o, y) =
          read_ack-arrived R method payload rest w acks.round acks.fits arrived in
        let kept = (read_ack-Keeps (S.by_stream (S.view w))).at w refl in
        (w', e, subst (λ p. S.view p.1 ≡ S.view w) e kept, i, o, y)
