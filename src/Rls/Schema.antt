-- ===== src/Rls/Schema.antt =====
-- Schema of rlstest/catalog.go: the tables of the migrations.
use mascotapp.Base.{[], ◌∷◌, codes}
use mascotapp.Rls.{Classification}

abbrev pub schema : Classification
schema = record {
  tenant =
      codes "adoption_applications"
      ∷ codes "application_events"
      ∷ codes "application_notes"
      ∷ codes "audit_log"
      ∷ codes "documents"
      ∷ codes "form_submissions"
      ∷ codes "form_template_versions"
      ∷ codes "form_templates"
      ∷ codes "media"
      ∷ codes "memberships"
      ∷ codes "pet_health_records"
      ∷ codes "pet_media"
      ∷ codes "pet_status_history"
      ∷ codes "pets"
      ∷ codes "shelters"
      ∷ [];
  tenant_children =
      codes "adoption_applications"
      ∷ codes "application_events"
      ∷ codes "application_notes"
      ∷ codes "documents"
      ∷ codes "form_submissions"
      ∷ codes "form_template_versions"
      ∷ codes "pet_health_records"
      ∷ codes "pet_media"
      ∷ codes "pet_status_history"
      ∷ [];
  non_tenant_model =
      codes "breeds"
      ∷ codes "refresh_tokens"
      ∷ codes "species"
      ∷ codes "totp_recovery_codes"
      ∷ codes "users"
      ∷ [];
  infrastructure = codes "goose_db_version" ∷ [];
  append_only = codes "application_events" ∷ codes "audit_log" ∷ [];
  no_policy = [];
  pending = [];
  policy_lands_at = (codes "refresh_tokens", 13) ∷ [];
}
