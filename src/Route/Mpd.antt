-- ===== src/Route/Mpd.antt =====
-- The media presentation description: `DashSegment`, `MpdInfo`, and the part of
-- `RouteParser::parse_mpd` that reads the document.
use usrp_atsc.Common.{ℕ, ltb, if◌then◌else◌, Bool, true, List, [], length, drop, Option, none, some}
use usrp_atsc.Route.Text.{ascii, between, c_string, strstr, strchr, find_tag}
use usrp_atsc.Route.Slt.{Reading, too_short, no_root, exception, document}

pub record DashSegment : Type 0 where
  pub toi : ℕ
  pub url : List ℕ
  pub byte_offset : ℕ
  pub byte_length : ℕ
  pub presentation_time : ℕ
  pub duration : ℕ

pub record MpdInfo : Type 0 where
  pub base_url : List ℕ
  pub timescale : ℕ
  pub presentation_time_offset : ℕ
  pub video_segments : List DashSegment
  pub audio_segments : List DashSegment
  pub valid : Bool

-- The text of the element `BaseURL`. Where the first `>` stands behind the closing tag that is found, the
-- length of the string is below 0, and its constructor throws.
unfoldable pub base_url_of : List ℕ → Option (List ℕ)
unfolding find_tag strstr strchr
base_url_of mpd_start = elim (find_tag mpd_start (ascii "BaseURL")) [
  | none ↦ some []
  | some base_url ↦ elim (strstr base_url (ascii "</BaseURL>")) [
    | none ↦ some []
    | some end ↦ elim (strchr base_url b'>') [
      | none ↦ some []
      | some close ↦
          let content_start = drop 1 close in
          if ltb (length content_start) (length end) then none else some (between content_start end)
    ]
  ]
]

unfoldable pub read_mpd : List ℕ → Reading MpdInfo
unfolding c_string find_tag base_url_of
read_mpd payload =
    if ltb (length payload) 10
    then too_short
    else elim (find_tag (c_string payload) (ascii "MPD")) [
      | none ↦ no_root
      | some mpd_start ↦ elim (base_url_of mpd_start) [
        | none ↦ exception
        | some base_url ↦ document (record {
          base_url = base_url;
          timescale = 1;
          presentation_time_offset = 0;
          video_segments = [];
          audio_segments = [];
          valid = true;
        })
      ]
    ]
