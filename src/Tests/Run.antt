-- ===== src/Tests/Run.antt =====
-- What a run in the concrete world computes through.
use todo_chat_app.Prelude.{str_eq}
use todo_chat_app.Prelude.Text.{trim_space, to_upper, to_lower, equal_fold, is_empty}
use todo_chat_app.Prelude.Int.{sub_int, mul_int}
use todo_chat_app.Outcome.{refuse_if, ask, ask_or, ask_optional, ask_else, ignore_error, expect}
use todo_chat_app.Gorm.Memory.{memory_table}
use todo_chat_app.Gorm.Memory.Cascade.{cascading_table, sweep}
use todo_chat_app.Repository.Task
use todo_chat_app.Repository.Member
use todo_chat_app.Repository.Invitation
use todo_chat_app.Repository.User
use todo_chat_app.Repository.Token
use todo_chat_app.Repository.Verification
use todo_chat_app.Repository.Identity
use todo_chat_app.Repository.Workspace as spaces
use todo_chat_app.Service.Workspace as workspaces
use todo_chat_app.Service.Workspace.Slug.{
  join_fields, drop_invalid, collapse, trim_dash_left, trim_dash_right, prefix, cut_base, slug_base,
  generate_slug,
}
use todo_chat_app.Service.User as accounts
use todo_chat_app.Service.Auth as auth
use todo_chat_app.Middleware.Rbac as rbac
use todo_chat_app.Middleware.Cors as origins
use todo_chat_app.Chat as chat
use todo_chat_app.Prelude.Maps.{lookup, insert, erase}
use todo_chat_app.Service.Task.{
  edit_title, edit_description, edit_status, edit_priority, edit_due_date, edit_assignee, edit,
  prepared, require_member, create, get_by_id, list_by_workspace, store_draft, update_task,
  delete_task, page_offset,
}
use todo_chat_app.Service.Invitation.{
  generate_token, check_invite, new_invitation, create_and_send, update_and_send, invite,
  renew_or_create, resend_invitation, join, accept_invitation,
}
use todo_chat_app.Prelude.Text.{cut_prefix}
use todo_chat_app.Middleware.Token as token
use todo_chat_app.Handler as web
use todo_chat_app.Handler.Task as task_handler
use todo_chat_app.Handler.LocalAuth as account_handler
use todo_chat_app.Handler.Chat as socket
use todo_chat_app.Response as replies
use todo_chat_app.Route as route
use todo_chat_app.Repository.Message as message

unfoldable pub running : Unit {0}
unfolding str_eq trim_space to_upper to_lower equal_fold is_empty sub_int mul_int refuse_if ask
    ask_or ask_optional ask_else ignore_error expect memory_table cascading_table sweep Task.create
    Task.find_by_id Task.find_by_workspace Task.count_by_workspace Task.update Task.delete
    Member.is_member Member.add_member Member.get_role Invitation.create Invitation.find_by_token
    Invitation.find_by_workspace_and_email Invitation.update Invitation.mark_used User.find_by_id
    edit_title edit_description edit_status edit_priority edit_due_date edit_assignee edit prepared
    require_member create get_by_id list_by_workspace store_draft update_task delete_task
    page_offset generate_token check_invite new_invitation create_and_send update_and_send invite
    renew_or_create resend_invitation join accept_invitation User.find_by_email User.create
    User.update User.delete_by_id Token.save Token.find_by_hash Token.delete_by_hash
    Verification.create Verification.find_latest_by_user_id Verification.consume_valid_by_hash
    Verification.delete_by_user_id Verification.scan_user Identity.create
    Identity.find_by_provider_subject spaces.create spaces.find_by_id spaces.update spaces.delete
    workspaces.require_seen workspaces.get_by_id workspaces.update workspaces.delete
    workspaces.create_with_admin workspaces.create join_fields drop_invalid collapse trim_dash_left
    trim_dash_right prefix cut_base slug_base generate_slug accounts.split_bar
    accounts.provider_from_subject accounts.update_user_profile accounts.store_profile
    accounts.update_profile accounts.create_or_find accounts.link_or_find accounts.refuse_existing
    accounts.sync_known accounts.sync_auth0_user auth.hash_token auth.generate_random_token
    auth.send_verification_email auth.issue_token_pair auth.mail_or_undo auth.register auth.login
    auth.consume auth.verify_email auth.rotate auth.refresh auth.link_identity auth.confirm_verified
    auth.confirm_account_link auth.set_password rbac.get_role rbac.judge_workspace
    rbac.require_workspace_role origins.origin_headers origins.cors chat.is_channel_member
    chat.join_room chat.erase_all chat.leave_room chat.recipients chat.failed_of
    chat.broadcast_to_room lookup insert erase cut_prefix token.extract_bearer token.key_func
    token.handle_local_token token.handle web.require web.call web.reply_if web.signed_in web.cause
    task_handler.create task_handler.delete_task task_handler.due_of replies.forbidden
    replies.bad_request replies.no_content replies.not_found replies.unauthorized replies.ok_reply
    replies.internal_error route.answer route.serve socket.advance
    account_handler.resend_verification message.save auth.resend_to auth.resend_verification
running = tt
