-- ===== src/Chat/Curl.antt =====
-- AIHelper::executeCurl of AIApps/ChatServer/src/AIUtil/AIHelper.cpp. `perform` is a transfer of libcurl.
use miniaibrowse_cpp.Common.{
  List, [], ◌∷◌, ◌++◌, Option, none, some, Bytes, codes, bytes_key, ℕ_key,
}
use miniaibrowse_cpp.Chat.Accounts.{Outcome, returned, threw}
use miniaibrowse_cpp.Chat.Json.{JsonLibrary}
use miniaibrowse_cpp.Chat.Strategy.{AiStrategy, get_api_url, get_api_key}

pub record HttpPost : Type 0 where
  pub url : Bytes
  pub headers : List Bytes
  pub payload : Bytes

module _ (J : JsonLibrary) (getenv : Bytes → Option Bytes) where
  open J use {
    Value, parse, dump, from_text, object, array, member, items, get_text, is_object, is_null,
    has_none, error_text,
  }

  abbrev pub curl_headers : Bytes → List Bytes
  curl_headers [] = codes "Content-Type: application/json" ∷ codes "Accept: application/json" ∷ []
  curl_headers (c ∷ key) =
      (codes "Authorization: Bearer " ++ c ∷ key)
      ∷ codes "Content-Type: application/json"
      ∷ codes "Accept: application/json"
      ∷ []

  abbrev pub received : Outcome Bytes → Outcome Value
  received (threw what) = threw (codes "curl_easy_perform() failed: " ++ what)
  received (returned buffer) = elim (parse buffer) [
    | none ↦ threw (codes "Failed to parse JSON response: " ++ buffer)
    | some v ↦ returned v
  ]

  unfoldable pub execute_curl :
      (HttpPost → Outcome Bytes) → AiStrategy J getenv → Value → Outcome Value
  execute_curl perform s payload = elim (get_api_url J getenv s) [
    | threw what ↦ threw what
    | returned url ↦ received (
        perform (record {
          url = url;
          headers = curl_headers (get_api_key J getenv s);
          payload = dump payload;
        }))
  ]
