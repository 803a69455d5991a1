-- ===== src/Credit/Types.antt =====
-- atomefin/credit/types.go, the requests. Integers are int64 patterns; enums and codes are their wire
-- strings, and a free-form object is its members.
use atome_fin_go_sdk.Base.{ℕ, Bool, Option, List, Bytes}

pub record QueryUserTagParam : Type 0 where
  pub request_id : Bytes
  pub mobile_number : Bytes
  pub country : Bytes

pub record LivenessCheck : Type 0 where
  pub result : Bytes
  pub snapshot_photo : Bytes
  pub liveness_check_result01 : Bytes
  pub liveness_check_result02 : Bytes
  pub liveness_check_result03 : Bytes

pub record OcrResult : Type 0 where
  pub id_number : Bytes
  pub full_name : Bytes
  pub birth_place : Bytes
  pub ocr_blood_type : Bytes
  pub ocr_religion : Bytes
  pub ocr_gender : Bytes
  pub manually_birth_date : Bytes
  pub ocr_province : Bytes
  pub ocr_city : Bytes
  pub ocr_district : Bytes
  pub job_type : Bytes
  pub ocr_marital_status : Bytes
  pub manually_expired_date : Bytes
  pub manually_citizenship : Bytes
  pub manually_rt : Bytes
  pub manually_rw : Bytes

pub record IndividualProfile : Type 0 where
  pub id_type : Bytes
  pub ocr_result : Option OcrResult
  pub id_front_photo : Bytes
  pub manually_education : Bytes
  pub mother_maiden_name : Bytes
  pub marital_status : Bytes

pub record EmergencyContact : Type 0 where
  pub name : Bytes
  pub phone : Bytes
  pub relation : Bytes

pub record WorkInformation : Type 0 where
  pub employer_name : Bytes
  pub work_since : Bytes
  pub monthly_income : Bytes
  pub job_industry : Bytes
  pub job_position : Bytes
  pub payroll_period : Bytes

pub record ResidentialInformation : Type 0 where
  pub region : Bytes
  pub province : Bytes
  pub city : Bytes
  pub district : Bytes
  pub address : Bytes

pub record PaymentInformation : Type 0 where
  pub pay_day : ℕ

pub record FinancialInformation : Type 0 where
  pub emergency_contact : Option EmergencyContact
  pub emergency_contact2 : Option EmergencyContact
  pub work_information : Option WorkInformation
  pub residential : Option ResidentialInformation
  pub payment_information : Option PaymentInformation

pub record GpsSample : Type 0 where
  pub longitude : Bytes
  pub latitude : Bytes
  pub time : Bytes

pub record DeviceBuild : Type 0 where
  pub board : Bytes
  pub brand : Bytes
  pub cpu_abi : Bytes
  pub device : Bytes
  pub manufacturer : Bytes
  pub model : Bytes
  pub product : Bytes

pub record Device : Type 0 where
  pub device_id : Bytes
  pub google_advertising_id : Bytes
  pub idfa : Bytes
  pub idfv : Bytes
  pub utdid : Bytes
  pub is_root : Bool
  pub android_id : Bytes
  pub build : Option DeviceBuild

pub record WifiAp : Type 0 where
  pub ssid : Bytes

pub record IpAddress : Type 0 where
  pub eth_ip : Bytes
  pub true_ip : Bytes

pub record DeviceInfo : Type 0 where
  pub platform : Bytes
  pub gps : Option GpsSample
  pub device : Option Device
  pub wifi_list : List WifiAp
  pub ip_address : Option IpAddress

pub record PlatformInformation : Type 0 where
  pub credit_profile : Bytes
  pub latest_gkyc_time_stamp : Bytes
  pub user_flag : Bytes
  pub scd_user_level : Bytes
  pub scene_type : Bytes
  pub device_info : Option DeviceInfo

pub record CreditInformationEssentialInfo : Type 0 where
  pub liveness_check : Option LivenessCheck
  pub individual_profile : Option IndividualProfile
  pub financial_information : FinancialInformation
  pub platform_information : Option PlatformInformation

pub record CreditInformationExtendInfo : Type 0 where
  pub language : Bytes

pub record CreditInformationParam : Type 0 where
  pub request_id : Bytes
  pub external_reference_uid : Bytes
  pub mobile_number : Bytes
  pub email : Bytes
  pub country : Bytes
  pub application_essential_info : Option CreditInformationEssentialInfo
  pub extend_info : Option CreditInformationExtendInfo

pub record ApplicationEssentialInfo : Type 0 where
  pub liveness_check : Option LivenessCheck
  pub individual_profile : Option IndividualProfile
  pub financial_information : FinancialInformation
  pub platform_information : Option PlatformInformation

pub record CreditApplicationExtendInfo : Type 0 where
  pub credit_information_request_id : Bytes

pub record CreditApplicationParam : Type 0 where
  pub request_id : Bytes
  pub external_reference_uid : Bytes
  pub mobile_number : Bytes
  pub email : Bytes
  pub country : Bytes
  pub application_essential_info : Option ApplicationEssentialInfo
  pub extend_info : Option CreditApplicationExtendInfo

pub record CreditApplicationChangeExtendInfo : Type 0 where
  pub language : Bytes

pub record CreditApplicationChangeParam : Type 0 where
  pub request_id : Bytes
  pub external_reference_uid : Bytes
  pub mobile_number : Bytes
  pub email : Bytes
  pub extend_info : Option CreditApplicationChangeExtendInfo

pub record CloseAccountParam : Type 0 where
  pub request_id : Bytes
  pub external_reference_uid : Bytes

pub record BalanceHistoryParams : Type 0 where
  pub external_reference_uid : Bytes
  pub kind : Bytes
  pub request_id : Bytes
  pub start : ℕ
  pub count : ℕ
