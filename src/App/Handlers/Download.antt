-- ===== src/App/Handlers/Download.antt =====
-- `writeOvpnDownload` of backend/internal/app/cert.go.
use fast_bypass.Base.{not, ◌&&◌, is_empty, if◌then◌else◌}
use fast_bypass.Result.{Error, mt_not_found}
use fast_bypass.Store.{VpnUserMeta}
use fast_bypass.App.State.{App, on_router}
use fast_bypass.App.Cert.{resolve_open_vpn, ovpn_body_for_meta}
use fast_bypass.App.Http.{
  Response, Handler, error, file, answer, catch, not_found, internal, mikrotik_unavailable,
  ovpn_missing, template_missing,
}

abbrev pub body_error : Error → Response
body_error mt_not_found = error 503 ovpn_missing
body_error e = error 503 template_missing

unfoldable pub write_ovpn_download : (A : App) → VpnUserMeta → Handler A
unfolding ovpn_body_for_meta
write_ovpn_download A meta =
    catch A (on_router A (A.mt.get_user meta.mikrotik_name)) (λ _. error 404 not_found)
      λ u.
        catch A (resolve_open_vpn A meta) (λ _. error 500 internal)
          λ r.
            if not r.use_cert && is_empty u.password
            then answer A (error 503 mikrotik_unavailable)
            else catch A (ovpn_body_for_meta A meta u) body_error
                λ body. answer A (file meta.mikrotik_name body)
