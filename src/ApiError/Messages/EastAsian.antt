-- ===== src/ApiError/Messages/EastAsian.antt =====
-- The texts of `localizedMessages` in apps/web/src/lib/api-error.ts: ja, ko.
use go_check_ssl.Prelude.Text.{Text, codes}
use go_check_ssl.ApiError.Codes.{
  ApiErrorCode, invalid_credentials, registration_disabled, email_not_verified, invalid_token,
  token_expired, resource_exists, password_too_short, username_too_short, username_too_long,
  username_invalid_chars, invalid_request_body, missing_refresh_cookie, missing_bearer_token,
  invalid_access_token, missing_authenticated_user, admin_access_required, user_not_found,
  tenant_not_found, tenant_disabled, domain_not_found, endpoint_not_found, domain_already_exists,
  hostname_required, target_ip_invalid, port_out_of_range, name_required, invalid_endpoint_config,
  telegram_not_configured, frontend_assets_unavailable, no_selected_user, bad_request, unauthorized,
  forbidden, not_found, conflict, server_error,
}

unfoldable pub ja_messages : ApiErrorCode → Text
ja_messages invalid_credentials = codes "ユーザー名またはパスワードが正しくありません。"
ja_messages registration_disabled = codes "現在、登録は無効になっています。"
ja_messages email_not_verified = codes "メールアドレスの確認がまだ完了していません。"
ja_messages invalid_token = codes "トークンが無効です。"
ja_messages token_expired = codes "トークンの有効期限が切れています。"
ja_messages resource_exists = codes "リソースはすでに存在します。"
ja_messages password_too_short = codes "パスワードは 8 文字以上である必要があります。"
ja_messages username_too_short = codes "ユーザー名は 3 文字以上である必要があります。"
ja_messages username_too_long = codes "ユーザー名は 32 文字以下である必要があります。"
ja_messages username_invalid_chars = codes "ユーザー名には英字、数字、ドット、アンダースコア、ハイフンのみ使用できます。"
ja_messages invalid_request_body = codes "リクエスト内容が不正です。"
ja_messages missing_refresh_cookie = codes "セッション更新用の Cookie がありません。"
ja_messages missing_bearer_token = codes "アクセストークンがありません。"
ja_messages invalid_access_token = codes "アクセストークンが無効です。"
ja_messages missing_authenticated_user = codes "セッションが無効です。もう一度ログインしてください。"
ja_messages admin_access_required = codes "管理者権限が必要です。"
ja_messages user_not_found = codes "ユーザーが見つかりません。"
ja_messages tenant_not_found = codes "テナントが見つかりません。"
ja_messages tenant_disabled = codes "このテナントは無効化されています。"
ja_messages domain_not_found = codes "ドメインが見つかりません。"
ja_messages endpoint_not_found = codes "通知エンドポイントが見つかりません。"
ja_messages domain_already_exists = codes "このドメインはすでに存在します。"
ja_messages hostname_required = codes "ホスト名は必須です。"
ja_messages target_ip_invalid = codes "指定 IP は有効な IPv4 または IPv6 アドレスである必要があります。"
ja_messages port_out_of_range = codes "ポートは 1 から 65535 の範囲で指定してください。"
ja_messages name_required = codes "名前は必須です。"
ja_messages invalid_endpoint_config = codes "通知エンドポイントの設定が不正です。"
ja_messages telegram_not_configured = codes "Telegram ボットトークンが設定されていません。"
ja_messages frontend_assets_unavailable = codes "フロントエンドのアセットが利用できません。"
ja_messages no_selected_user = codes "先にユーザーを選択してください。"
ja_messages bad_request = codes "リクエストが不正です。"
ja_messages unauthorized = codes "この操作を行う権限がありません。"
ja_messages forbidden = codes "この操作を実行する権限がありません。"
ja_messages not_found = codes "要求されたリソースが見つかりません。"
ja_messages conflict = codes "既存のリソースと競合しています。"
ja_messages server_error = codes "サーバーがリクエストを処理できませんでした。"

unfoldable pub ko_messages : ApiErrorCode → Text
ko_messages invalid_credentials = codes "사용자 이름이나 비밀번호가 잘못되었습니다."
ko_messages registration_disabled = codes "현재 등록이 비활성화되어 있습니다."
ko_messages email_not_verified = codes "Email 확인이 아직 보류 중입니다."
ko_messages invalid_token = codes "토큰이 유효하지 않습니다."
ko_messages token_expired = codes "토큰이 만료되었습니다."
ko_messages resource_exists = codes "리소스가 이미 존재합니다."
ko_messages password_too_short = codes "비밀번호는 8자 이상이어야 합니다."
ko_messages username_too_short = codes "사용자 이름은 3자 이상이어야 합니다."
ko_messages username_too_long = codes "사용자 이름은 최대 32자여야 합니다."
ko_messages username_invalid_chars = codes "사용자 이름에는 문자, 숫자, 점, 밑줄, 대시만 포함할 수 있습니다."
ko_messages invalid_request_body = codes "요청 본문이 잘못되었습니다."
ko_messages missing_refresh_cookie = codes "새로 고침 쿠키가 없습니다."
ko_messages missing_bearer_token = codes "액세스 토큰이 누락되었습니다."
ko_messages invalid_access_token = codes "액세스 토큰이 잘못되었습니다."
ko_messages missing_authenticated_user = codes "귀하의 세션은 더 이상 유효하지 않습니다. 다시 로그인해 주세요."
ko_messages admin_access_required = codes "관리자 액세스가 필요합니다."
ko_messages user_not_found = codes "사용자를 찾을 수 없습니다."
ko_messages tenant_not_found = codes "임차인을 찾을 수 없습니다."
ko_messages tenant_disabled = codes "이 테넌트는 비활성화되었습니다."
ko_messages domain_not_found = codes "도메인을 찾을 수 없습니다."
ko_messages endpoint_not_found = codes "알림 엔드포인트를 찾을 수 없습니다."
ko_messages domain_already_exists = codes "이 도메인은 이미 존재합니다."
ko_messages hostname_required = codes "호스트 이름이 필요합니다."
ko_messages target_ip_invalid = codes "고정된 IP는 유효한 IPv4 또는 IPv6 주소여야 합니다."
ko_messages port_out_of_range = codes "포트는 1에서 65535 사이여야 합니다."
ko_messages name_required = codes "이름은 필수입니다."
ko_messages invalid_endpoint_config = codes "알림 끝점 구성이 잘못되었습니다."
ko_messages telegram_not_configured = codes "Telegram 봇 토큰이 구성되지 않았습니다."
ko_messages frontend_assets_unavailable = codes "Frontend 자산을 사용할 수 없습니다."
ko_messages no_selected_user = codes "먼저 사용자를 선택하세요."
ko_messages bad_request = codes "요청이 잘못되었습니다."
ko_messages unauthorized = codes "이 작업을 수행할 권한이 없습니다."
ko_messages forbidden = codes "이 작업에 대한 권한이 없습니다."
ko_messages not_found = codes "요청한 리소스를 찾을 수 없습니다."
ko_messages conflict = codes "요청이 기존 리소스와 충돌합니다."
ko_messages server_error = codes "서버가 요청을 처리하지 못했습니다."
