-- ===== src/ApiError/Messages/Chinese.antt =====
-- The texts of `localizedMessages` in apps/web/src/lib/api-error.ts: zh-CN, zh-TW.
use go_check_ssl.Prelude.Text.{Text, codes}
use go_check_ssl.ApiError.Codes.{
  ApiErrorCode, invalid_credentials, registration_disabled, email_not_verified, invalid_token,
  token_expired, resource_exists, password_too_short, username_too_short, username_too_long,
  username_invalid_chars, invalid_request_body, missing_refresh_cookie, missing_bearer_token,
  invalid_access_token, missing_authenticated_user, admin_access_required, user_not_found,
  tenant_not_found, tenant_disabled, domain_not_found, endpoint_not_found, domain_already_exists,
  hostname_required, target_ip_invalid, port_out_of_range, name_required, invalid_endpoint_config,
  telegram_not_configured, frontend_assets_unavailable, no_selected_user, bad_request, unauthorized,
  forbidden, not_found, conflict, server_error,
}

unfoldable pub zh_cn_messages : ApiErrorCode → Text
zh_cn_messages invalid_credentials = codes "用户名或密码错误。"
zh_cn_messages registration_disabled = codes "当前已关闭注册。"
zh_cn_messages email_not_verified = codes "邮箱尚未验证。"
zh_cn_messages invalid_token = codes "令牌无效。"
zh_cn_messages token_expired = codes "令牌已过期。"
zh_cn_messages resource_exists = codes "资源已存在。"
zh_cn_messages password_too_short = codes "密码至少需要 8 个字符。"
zh_cn_messages username_too_short = codes "用户名至少需要 3 个字符。"
zh_cn_messages username_too_long = codes "用户名最多允许 32 个字符。"
zh_cn_messages username_invalid_chars = codes "用户名只能包含字母、数字、点号、下划线和短横线。"
zh_cn_messages invalid_request_body = codes "请求内容无效。"
zh_cn_messages missing_refresh_cookie = codes "缺少刷新会话所需的 Cookie。"
zh_cn_messages missing_bearer_token = codes "缺少访问令牌。"
zh_cn_messages invalid_access_token = codes "访问令牌无效。"
zh_cn_messages missing_authenticated_user = codes "当前登录状态无效，请重新登录。"
zh_cn_messages admin_access_required = codes "需要管理员权限。"
zh_cn_messages user_not_found = codes "未找到用户。"
zh_cn_messages tenant_not_found = codes "未找到租户。"
zh_cn_messages tenant_disabled = codes "该租户已被禁用。"
zh_cn_messages domain_not_found = codes "未找到域名。"
zh_cn_messages endpoint_not_found = codes "未找到通知端点。"
zh_cn_messages domain_already_exists = codes "该域名已存在。"
zh_cn_messages hostname_required = codes "主机名不能为空。"
zh_cn_messages target_ip_invalid = codes "指定 IP 必须是有效的 IPv4 或 IPv6 地址。"
zh_cn_messages port_out_of_range = codes "端口必须在 1 到 65535 之间。"
zh_cn_messages name_required = codes "名称不能为空。"
zh_cn_messages invalid_endpoint_config = codes "通知端点配置无效。"
zh_cn_messages telegram_not_configured = codes "Telegram 机器人令牌尚未配置。"
zh_cn_messages frontend_assets_unavailable = codes "前端资源当前不可用。"
zh_cn_messages no_selected_user = codes "请先选择一个用户。"
zh_cn_messages bad_request = codes "请求无效。"
zh_cn_messages unauthorized = codes "当前操作未授权，请重新登录。"
zh_cn_messages forbidden = codes "没有权限执行该操作。"
zh_cn_messages not_found = codes "请求的资源不存在。"
zh_cn_messages conflict = codes "资源冲突，请检查是否已存在。"
zh_cn_messages server_error = codes "服务器处理请求时发生错误。"

unfoldable pub zh_tw_messages : ApiErrorCode → Text
zh_tw_messages invalid_credentials = codes "使用者名稱或密碼錯誤。"
zh_tw_messages registration_disabled = codes "目前已關閉註冊。"
zh_tw_messages email_not_verified = codes "電子郵件尚未驗證。"
zh_tw_messages invalid_token = codes "權杖無效。"
zh_tw_messages token_expired = codes "權杖已過期。"
zh_tw_messages resource_exists = codes "資源已存在。"
zh_tw_messages password_too_short = codes "密碼至少需要 8 個字元。"
zh_tw_messages username_too_short = codes "使用者名稱至少需要 3 個字元。"
zh_tw_messages username_too_long = codes "使用者名稱最多允許 32 個字元。"
zh_tw_messages username_invalid_chars = codes "使用者名稱只能包含字母、數字、點、底線與連字號。"
zh_tw_messages invalid_request_body = codes "請求內容無效。"
zh_tw_messages missing_refresh_cookie = codes "缺少重新整理會話所需的 Cookie。"
zh_tw_messages missing_bearer_token = codes "缺少存取權杖。"
zh_tw_messages invalid_access_token = codes "存取權杖無效。"
zh_tw_messages missing_authenticated_user = codes "目前登入狀態無效，請重新登入。"
zh_tw_messages admin_access_required = codes "需要管理員權限。"
zh_tw_messages user_not_found = codes "找不到使用者。"
zh_tw_messages tenant_not_found = codes "找不到租戶。"
zh_tw_messages tenant_disabled = codes "此租戶已被停用。"
zh_tw_messages domain_not_found = codes "找不到網域。"
zh_tw_messages endpoint_not_found = codes "找不到通知端點。"
zh_tw_messages domain_already_exists = codes "此網域已存在。"
zh_tw_messages hostname_required = codes "主機名稱不能為空。"
zh_tw_messages target_ip_invalid = codes "指定 IP 必須是有效的 IPv4 或 IPv6 位址。"
zh_tw_messages port_out_of_range = codes "埠號必須介於 1 到 65535 之間。"
zh_tw_messages name_required = codes "名稱不能為空。"
zh_tw_messages invalid_endpoint_config = codes "通知端點設定無效。"
zh_tw_messages telegram_not_configured = codes "尚未設定 Telegram 機器人權杖。"
zh_tw_messages frontend_assets_unavailable = codes "前端資源目前無法使用。"
zh_tw_messages no_selected_user = codes "請先選擇一位使用者。"
zh_tw_messages bad_request = codes "請求無效。"
zh_tw_messages unauthorized = codes "目前操作未授權，請重新登入。"
zh_tw_messages forbidden = codes "沒有權限執行此操作。"
zh_tw_messages not_found = codes "找不到要求的資源。"
zh_tw_messages conflict = codes "資源衝突，請確認是否已存在。"
zh_tw_messages server_error = codes "伺服器處理請求時發生錯誤。"
