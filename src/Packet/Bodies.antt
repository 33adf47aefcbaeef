-- ===== src/Packet/Bodies.antt =====
-- packet.go, the contents of the other messages.
use gb32960_go_sdk.Base.{ℕ, List}
use gb32960_go_sdk.GoTime.{Time}

pub record ConfigField : Type 0 where
  pub id : ℕ
  pub length : ℕ
  pub value : List ℕ

pub record VehicleLoginData : Type 0 where
  pub login_time : Time
  pub sequence : ℕ
  pub iccid : List ℕ
  pub config_data_cnt : ℕ
  pub config_data : List ConfigField

pub record VehicleLogoutData : Type 0 where
  pub logout_time : Time
  pub sequence : ℕ

pub record LoginResponse : Type 0 where
  pub login_time : Time
  pub sequence : ℕ
  pub result : ℕ
  pub token : List ℕ

pub record PlatformLoginData : Type 0 where
  pub login_time : Time
  pub sequence : ℕ
  pub username : List ℕ
  pub password : List ℕ

pub record PlatformLogoutData : Type 0 where
  pub logout_time : Time
  pub sequence : ℕ

pub record ParamQueryData : Type 0 where
  pub query_time : Time
  pub count : ℕ
  pub param_ids : List ℕ

pub record ParamItem : Type 0 where
  pub id : ℕ
  pub value : List ℕ

pub record ParamQueryResponse : Type 0 where
  pub count : ℕ
  pub params : List ParamItem

pub record ParamSettingData : Type 0 where
  pub setting_time : Time
  pub count : ℕ
  pub params : List ParamItem
