-- ===== src/Suite/Attachments.antt =====
-- The tests of src/controller.rs on the service of a share, its backing volume and the pods that use it.
use hcloud_csi_rwx.Prelude.{
  String, ◌≡◌, refl, Bool, true, false, not, ◌&&◌, Option, none, some, List, [], ◌∷◌, is_some,
}
use hcloud_csi_rwx.Json.{Value, str, array, object}
use hcloud_csi_rwx.Kube.{ok, err}
use hcloud_csi_rwx.Kube.Session.{◌>>=◌, get_object, list_objects, create_object, delete_object}
use hcloud_csi_rwx.Exec.Fake.{contains_text}
use hcloud_csi_rwx.Provision.Config.{env_or, share_namespace}
use hcloud_csi_rwx.Provision.Names.{volume_name, backing_pvc_name}
use hcloud_csi_rwx.Provision.Specs.{service_json}
use hcloud_csi_rwx.Controller.State.{service_created, service_read, ensure_service}
use hcloud_csi_rwx.Controller.Detach.{
  backing_pv_name, detach_loop, detach_from, force_detach_backing_pvc, attached_from,
  is_backing_pvc_attached,
}
use hcloud_csi_rwx.Controller.Evict.{evict_loop, evict_workload_pods}
use hcloud_csi_rwx.Testing.{FakeApi, new_api, ok_route, called, call, first_reply}
use hcloud_csi_rwx.Testing.Fixtures.{pod_list, pvc, service_value, volume_attachment, va_list}
use hcloud_csi_rwx.Suite.Disk.{is_ok, is_err, ok_where, is_text, every}
use hcloud_csi_rwx.Suite.Server.{client, env, on_api, api_after}
use hcloud_csi_rwx.Suite.States.{codec, err_of}

abbrev pub nothing : Value
nothing = object []

abbrev no_service : FakeApi
no_service = err_of "GET /api/v1/namespaces/hcloud-csi-rwx/services/pvc-1" 404 new_api

abbrev posts_services : String
posts_services = "POST /api/v1/namespaces/hcloud-csi-rwx/services"

abbrev pub with_service : FakeApi → FakeApi
with_service =
    ok_route "GET /api/v1/namespaces/hcloud-csi-rwx/services/pvc-1"
      (service_value "pvc-1" "10.43.0.9")

unfoldable service_is_created_when_missing_and_reused_otherwise : Bool
service_is_created_when_missing_and_reused_otherwise =
    let missing =
      ensure_service client env codec "pvc-1"
        (on_api (ok_route posts_services nothing no_service)) in
    let present = ensure_service client env codec "pvc-1" (on_api (with_service new_api)) in
    let raced = on_api (err_of posts_services 409 no_service) in
    let broken = on_api (err_of posts_services 500 no_service) in
    every (
      is_ok missing.0
      ∷ called (api_after missing) posts_services
      ∷ is_ok present.0
      ∷ not (called (api_after present) posts_services)
      ∷ is_ok (ensure_service client env codec "pvc-1" raced).0
      ∷ is_err (ensure_service client env codec "pvc-1" broken).0
      ∷ [])

-- The backing claim, bound to a volume or not.
abbrev pub with_backing : Option String → FakeApi → FakeApi
with_backing pv =
    ok_route "GET /api/v1/namespaces/hcloud-csi-rwx/persistentvolumeclaims/pvc-1-backing"
      (pvc "pvc-1-backing" "hcloud-csi-rwx" "hcloud-volumes" ("ReadWriteOnce" ∷ []) pv)

abbrev pv_name : FakeApi → Option String
pv_name f = elim (backing_pv_name client env {E = String} "pvc-1" (on_api f)).0 [
  | ok pv ↦ pv
  | err e ↦ none
]

unfoldable backing_pv_name_resolution : Bool
backing_pv_name_resolution = every (
    is_text "pv-1" (pv_name (with_backing (some "pv-1") new_api))
    ∷ not (is_some (pv_name (with_backing none new_api)))
    ∷ not (is_some (pv_name new_api))
    ∷ [])

abbrev pub attachments_url : String
attachments_url = "GET /apis/storage.k8s.io/v1/volumeattachments"

abbrev pub with_attachments : List Value → FakeApi → FakeApi
with_attachments vas = ok_route attachments_url (va_list vas)

abbrev pub deletes_va1 : String
deletes_va1 = "DELETE /apis/storage.k8s.io/v1/volumeattachments/va1"

unfoldable force_detach_only_touches_our_attachment : Bool
force_detach_only_touches_our_attachment =
    let vas = volume_attachment "va1" "pv-1" ∷ volume_attachment "va2" "pv-other" ∷ [] in
    let f =
      ok_route deletes_va1 nothing (with_attachments vas (with_backing (some "pv-1") new_api)) in
    let r = force_detach_backing_pvc client env "pvc-1" (on_api f) in
    every (
      is_ok r.0
      ∷ called (api_after r) deletes_va1
      ∷ not (called (api_after r) "DELETE /apis/storage.k8s.io/v1/volumeattachments/va2")
      ∷ [])

unfoldable force_detach_is_a_noop_without_a_backing_pv : Bool
force_detach_is_a_noop_without_a_backing_pv =
    let r = force_detach_backing_pvc client env "pvc-1" (on_api new_api) in
    is_ok r.0 && not (called (api_after r) "volumeattachments")

abbrev is_attached : FakeApi → Bool
is_attached f =
    ok_where (λ b. b) (is_backing_pvc_attached client env {E = String} "pvc-1" (on_api f)).0

unfoldable attachment_probe_reflects_reality : Bool
attachment_probe_reflects_reality =
    let bound = with_backing (some "pv-1") new_api in
    every (
      is_attached (with_attachments (volume_attachment "va1" "pv-1" ∷ []) bound)
      ∷ not (is_attached (with_attachments [] bound))
      ∷ not (is_attached new_api)
      ∷ not (is_attached (err_of attachments_url 500 bound))
      ∷ [])

-- A pod that mounts a claim.
abbrev workload : String → String → Value
workload name claim = object (
    ("apiVersion", str "v1")
    ∷ ("kind", str "Pod")
    ∷ ("metadata", object (("name", str name) ∷ ("namespace", str "default") ∷ []))
    ∷ (
      "spec",
      object (
          (
            "volumes",
            array (
                object (
                  ("name", str "d")
                  ∷ ("persistentVolumeClaim", object (("claimName", str claim) ∷ []))
                  ∷ [])
                ∷ []),
          )
          ∷ []),
    )
    ∷ ("status", object (("phase", str "Running") ∷ []))
    ∷ [])

unfoldable workload_pods_of_the_claim_are_evicted : Bool
workload_pods_of_the_claim_are_evicted =
    let pods = workload "app-1" "rwx-test" ∷ workload "other" "something-else" ∷ [] in
    let f =
      ok_route "DELETE /api/v1/namespaces/default/pods/app-1" nothing
        (ok_route "GET /api/v1/namespaces/default/pods" (pod_list pods) new_api) in
    let r = evict_workload_pods client "rwx-test" "default" (on_api f) in
    every (
      is_ok r.0
      ∷ called (api_after r) "DELETE /api/v1/namespaces/default/pods/app-1"
      ∷ not (called (api_after r) "DELETE /api/v1/namespaces/default/pods/other")
      ∷ [])

abbrev pub untouched : FakeApi → Bool
untouched f = elim f.seen [ [] ↦ true | s ∷ l ↦ false ]

unfoldable eviction_is_skipped_without_claim_identity : Bool
eviction_is_skipped_without_claim_identity =
    let first = evict_workload_pods client "" "default" (on_api new_api) in
    let second = evict_workload_pods client "claim" "" (on_api (api_after first)) in
    every (is_ok first.0 ∷ is_ok second.0 ∷ untouched (api_after second) ∷ [])

-- The tests pass.
attachments_pass :
    every (
      service_is_created_when_missing_and_reused_otherwise ∷ backing_pv_name_resolution
      ∷ force_detach_only_touches_our_attachment ∷ force_detach_is_a_noop_without_a_backing_pv
      ∷ attachment_probe_reflects_reality ∷ workload_pods_of_the_claim_are_evicted
      ∷ eviction_is_skipped_without_claim_identity ∷ [])
    ≡ true
unfolding service_is_created_when_missing_and_reused_otherwise backing_pv_name_resolution
    force_detach_only_touches_our_attachment force_detach_is_a_noop_without_a_backing_pv
    attachment_probe_reflects_reality workload_pods_of_the_claim_are_evicted
    eviction_is_skipped_without_claim_identity ensure_service service_read service_created
    service_json service_value volume_name share_namespace env_or backing_pv_name backing_pvc_name
    pvc volume_attachment va_list pod_list force_detach_backing_pvc detach_from detach_loop
    is_backing_pvc_attached attached_from evict_workload_pods evict_loop call first_reply
    contains_text get_object list_objects create_object delete_object ◌>>=◌
attachments_pass = refl
