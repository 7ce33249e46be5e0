-- ===== src/Provider/Registry.antt =====
-- The built-in adapters by their names (internal/provider/provider.go), and the ones that are defined.
use webhookery.Common.{
  String, true, false, Option, none, some, ◌==◌, string_eq, if◌then◌else◌, to_lower,
}
use webhookery.Provider.{VerifyInput, VerifyResult, Codec, result}
use webhookery.Provider.Builtin.{
  stripe_verify, github_verify, shopify_verify, slack_verify, generic_hmac_verify,
  cloud_events_verify,
}
use webhookery.Provider.Jwt.{generic_jwt_verify}
use webhookery.Provider.Declarative.{DeclarativeDefinition, declarative_verify}

pub data Adapter : Type 0 where
  stripe github shopify slack generic_hmac generic_jwt cloudevents internal generic_unsafe : Adapter
  declarative : DeclarativeDefinition → Adapter

-- `BuiltInRegistry` and `Registry.Adapter`
unfoldable pub builtin_named : String → Option Adapter
builtin_named name =
    if name == "stripe"
    then some stripe
    else if name == "github"
    then some github
    else if name == "shopify"
    then some shopify
    else if name == "slack"
    then some slack
    else if name == "generic-hmac"
    then some generic_hmac
    else if name == "generic-jwt"
    then some generic_jwt
    else if name == "cloudevents"
    then some cloudevents
    else if name == "internal"
    then some internal
    else if name == "generic-unsafe"
    then some generic_unsafe
    else none

unfoldable pub registry_adapter : String → Option Adapter
registry_adapter name = builtin_named (to_lower name)

-- `Verify` of each adapter.
unfoldable pub verify : Codec → Adapter → VerifyInput → VerifyResult
verify c stripe input = stripe_verify c input
verify c github input = github_verify c input
verify c shopify input = shopify_verify c input
verify c slack input = slack_verify c input
verify c generic_hmac input = generic_hmac_verify c input
verify c generic_jwt input = generic_jwt_verify c input
verify c cloudevents input = cloud_events_verify c input
verify c internal input = result "internal" true "ok"
verify c generic_unsafe input = result "generic-unsafe" false "unsafe_adapter_disabled"
verify c (declarative def) input = declarative_verify c def input
