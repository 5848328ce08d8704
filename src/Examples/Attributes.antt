-- ===== src/Examples/Attributes.antt =====
-- The attributes of a file, with one extended attribute.
use paramiko.Base.{◌≡◌, refl, [], ◌∷◌, none, some, codes, ok}
use paramiko.Wire.{be_bytes}
use paramiko.Message.{Message, write, add_int, add_int64, add_string, empty, rewind}
use paramiko.Message.Stream.{unread}
use paramiko.Sftp.Attributes.{
  SftpAttributes, flags_of, pack_size, pack_int, pack_pair, pack_items, pack_extended, pack,
  put_attr, unpack,
}
use paramiko.Sftp.RoundTrip.{as_unpacked, unpack-pack}

abbrev attributes : SftpAttributes
attributes = record {
  flags = 0;
  st_size = some 4096;
  st_uid = some 1000;
  st_gid = none;
  st_mode = some 33188;
  st_atime = some 1;
  st_mtime = some 2;
  attr = (codes "acl", codes "all") ∷ [];
}

abbrev packed : Message
packed = elim (pack attributes empty) [ ok m ↦ m | _ ↦ empty ]

exchanged_run : (as_unpacked attributes).attr ≡ (codes "all", codes "acl") ∷ []
unfolding put_attr
exchanged_run = refl

unpack-pack_example :
    ((unpack (rewind packed)).0 ≡ as_unpacked attributes) × (unread (unpack (rewind packed)).1 ≡ [])
unfolding pack pack_size pack_int pack_pair pack_items pack_extended add_int add_int64 add_string
    write paramiko.Wire.pack be_bytes flags_of
unpack-pack_example = unpack-pack attributes refl
