-- ===== src/Hostd/Shares/Tests.antt =====
-- Runs of the share files and exports on concrete inputs.
use pfortainer.Base.{
  ◌≡◌, refl, inl, inr, true, false, some, List, [], ◌∷◌, arith, Text, codes, text_eq, has_prefix,
  contains, words_from, cut, split, trim, trim_left, ok,
}
use pfortainer.FilePath.{clean, names, resolve, push, print, rooted, is_abs}
use pfortainer.Hostd.{Request, bad_request, success}
use pfortainer.Hostd.Shares.{
  ConfDir, Removed, gone, not_there, kept, newline, SmbShare, is_file_name, checked_path,
  parse_smb_conf, smb_share_to_conf, write_conf, smb_share, smb_share_body, posted, conf_lines,
  unlines,
}
use pfortainer.Hostd.Shares.Trim.{starts_well, ends_well}
use pfortainer.Hostd.Shares.RoundTrip.{IsWritable, parse_smb_conf-smb_share_to_conf}
use pfortainer.Hostd.Shares.Exports.{
  NfsExport, export_path, export_content, nfs_export_body, parse_export, join_words,
  export_reads_line,
}

-- The files written, the last first.
abbrev Log : Type 0
Log = List (Text × Text)

abbrev logged : ConfDir Log
logged = record {
  mkdir_all = λ w. (ok tt, w);
  write_file = λ p t w. (ok tt, (p, t) ∷ w);
  remove = λ p w. (not_there, w);
}

abbrev media : SmbShare
media = record {
  name = codes "media";
  path = codes "/tank/media";
  comment = [];
  valid_users = codes "@staff bob";
  read_only = true;
  browseable = true;
  guest_ok = false;
}

abbrev media_request : Request SmbShare
media_request = record {
  is_post = true;
  body = some (record media { path = codes "/tank/./x/../media/" });
}

media_written :
    (smb_share logged media_request []).1
    ≡ (
      codes "/usr/local/etc/smb4.conf.d/media.conf",
      codes
          "[media]\n\tpath = /tank/media\n\tvalid users = @staff bob\n\tread only = Yes\n\tbrowseable = Yes\n\tguest ok = No\n",
    )
      ∷ []
unfolding smb_share posted smb_share_body is_file_name checked_path clean names resolve push print
    rooted split text_eq is_abs has_prefix contains write_conf smb_share_to_conf conf_lines unlines
media_written = refl

media-IsWritable : IsWritable media
unfolding starts_well ends_well
media-IsWritable = record {
  name = omega arith;
  path = record { starts = refl; ends = refl; one_line = omega arith };
  comment = inl refl;
  valid_users = inr record { starts = refl; ends = refl; one_line = omega arith };
}

parse_smb_conf-smb_share_to_conf_example : parse_smb_conf (smb_share_to_conf media) ≡ media
parse_smb_conf-smb_share_to_conf_example = parse_smb_conf-smb_share_to_conf media media-IsWritable

-- A comment with a line break sets an option of the share.
abbrev injected : SmbShare
injected = record media { comment = codes "x\n\tguest ok = yes\n\tpath = /"; valid_users = [] }

injected_path : (parse_smb_conf (smb_share_to_conf injected)).path ≡ codes "/"
unfolding parse_smb_conf smb_share_to_conf conf_lines unlines split text_eq
    pfortainer.Hostd.Shares.parse_lines pfortainer.Hostd.Shares.parse_trimmed
    pfortainer.Hostd.Shares.set_key pfortainer.Hostd.Shares.ends_with
    pfortainer.Hostd.Shares.drop_last pfortainer.Hostd.Shares.bool_val trim trim_left has_prefix cut
injected_path = refl

abbrev whole_disk : NfsExport
whole_disk = record {
  name = codes "media";
  path = codes "/tank/media";
  line = codes "/ -maproot=root 10.0.0.9";
  clients = [];
}

export_reads_line_example :
    (nfs_export_body logged whole_disk []
      ≡ write_conf logged
          (codes "exports.d mkdir: ")
          (export_path (codes "media"))
          (export_content whole_disk.line)
          [])
    × (parse_export (codes "media") (export_content whole_disk.line)
        ≡ some record {
          name = codes "media";
          path = codes "/";
          line = trim whole_disk.line;
          clients = join_words (codes "-maproot=root" ∷ codes "10.0.0.9" ∷ []);
        })
unfolding is_file_name checked_path clean names resolve push print rooted split text_eq is_abs
    has_prefix contains trim trim_left words_from
export_reads_line_example =
    export_reads_line logged whole_disk [] (codes "/tank/media") (codes "/")
      (codes "-maproot=root" ∷ codes "10.0.0.9" ∷ []) refl refl (omega arith) refl refl
