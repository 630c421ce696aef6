-- ===== src/Catalog/Types.antt =====
-- The services and their components, lib/framing/service_catalog.h.
use usrp_atsc.Common.{ℕ, Bool, false, List, replicate}

abbrev pub max_services : ℕ
max_services = 32

abbrev pub max_components_per_service : ℕ
max_components_per_service = 8

pub data ComponentType : Type 0 where
  unknown : ComponentType
  video : ComponentType
  audio : ComponentType
  closed_caption : ComponentType
  application : ComponentType
  esg : ComponentType
  eas : ComponentType

pub data VideoCodec : Type 0 where
  unknown : VideoCodec
  hevc : VideoCodec
  avc : VideoCodec
  vvc : VideoCodec

pub data AudioCodec : Type 0 where
  unknown : AudioCodec
  ac4 : AudioCodec
  aac : AudioCodec
  mpeg_h : AudioCodec

pub record ServiceComponent : Type 0 where
  pub type : ComponentType
  pub component_id : ℕ
  pub video_codec : VideoCodec
  pub width : ℕ
  pub height : ℕ
  pub frame_rate : ℕ
  pub audio_codec : AudioCodec
  pub channels : ℕ
  pub sample_rate : ℕ
  pub language : List ℕ
  pub tsi : ℕ
  pub source_flow_id : ℕ
  pub valid : Bool

pub record Service : Type 0 where
  pub service_id : ℕ
  pub major_channel : ℕ
  pub minor_channel : ℕ
  pub short_name : List ℕ
  pub long_name : List ℕ
  pub service_category : ℕ
  pub ea_capable : Bool
  pub components : List ServiceComponent
  pub num_components : ℕ
  pub slt_svc_seq_num : ℕ
  pub protected_service : Bool
  pub valid : Bool

-- The values of the default initializers.
abbrev pub default_component : ServiceComponent
default_component = record {
  type = ComponentType.unknown;
  component_id = 0;
  video_codec = VideoCodec.unknown;
  width = 0;
  height = 0;
  frame_rate = 0;
  audio_codec = AudioCodec.unknown;
  channels = 0;
  sample_rate = 0;
  language = replicate 8 0;
  tsi = 0;
  source_flow_id = 0;
  valid = false;
}

abbrev pub default_service : Service
default_service = record {
  service_id = 0;
  major_channel = 0;
  minor_channel = 0;
  short_name = replicate 64 0;
  long_name = replicate 64 0;
  service_category = 0;
  ea_capable = false;
  components = replicate max_components_per_service default_component;
  num_components = 0;
  slt_svc_seq_num = 0;
  protected_service = false;
  valid = false;
}
